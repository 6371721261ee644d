-- ===== src/Spec/Validate/Groups.antt =====
-- internal/spec/validate.go: what the checks of groups and rules establish when they report nothing.
use seine.Prelude.{
  ℕ, ◌+◌, String, ◌≡◌, ◌≢◌, refl, ◌⊎◌, inl, inr, true, false, not, ◌&&◌, List, [], ◌∷◌, ◌++◌, ◌==◌,
  arith, eq_iff, In, Distinct, All, member, member→In, In→member, string_eq, append-eq-nil,
  Bool-cases,
}
use seine.Spec.Types
use seine.Spec.Types.{Acl}
use seine.Spec.Validate.Names.{valid_name}
use seine.Spec.Validate.Problems.{Problem}
use seine.Spec.Validate.{
  report, check_group, check_groups, check_agent_groups, check_agent_hub, check_acl_groups,
  check_acl, check_acls, is_empty,
}
use seine.Spec.Validate.Places.{report-eq-nil}

member-eq-true :
    (g : String) (groups : List String) → not (member string_eq g groups) ≡ false → In g groups
member-eq-true g groups h = member→In string_eq g groups (ground arith)

not_member : (g : String) (l : List String) → member string_eq g l ≡ false → ¬ In g l
not_member g l h m = let hit = In→member string_eq g l m in cc

pub All_imp :
    {A : Type 0} {P Q : A → Type 0} (xs : List A) → ((x : A) → P x → Q x) → All P xs → All Q xs
All_imp [] f h = tt
All_imp (x ∷ xs) f h = (f x h.0, All_imp xs f h.1)

pub All_at : {A : Type 0} (P : A → Type 0) (xs : List A) (x : A) → In x xs → All P xs → P x
All_at P [] x m h = absurd m
All_at P (y ∷ xs) x (inl e) h = rw e h.0
All_at P (y ∷ xs) x (inr m) h = All_at P xs x m h.1

first_or_old : (x g : String) (acc : List String) → In x (g ∷ acc) → (x ≡ g) ⊎ In x acc
first_or_old x g acc h = h

-- One round that reports nothing declares a new group.
check_group-declares :
    (i : ℕ) (groups : List String) (g : String)
    → (check_group i groups g).1 ≡ []
    → (valid_name g ≡ true) × (¬ In g groups) × ((check_group i groups g).0 ≡ g ∷ groups)
unfolding check_group
check_group-declares i groups g h = elim (Bool-cases (valid_name g)) [
  | inr p ↦ absurd (ground arith)
  | inl p ↦ elim (Bool-cases (member string_eq g groups)) [
    | inl q ↦ absurd (ground arith)
    | inr q ↦ rw (p, q) (refl, not_member g groups q, refl)
  ]
]

-- The declared groups are the listed ones, which are valid names and distinct.
pub check_groups-declares :
    (i : ℕ) (acc gs : List String)
    → (check_groups i acc gs).1 ≡ []
    → All (λ g. valid_name g ≡ true) gs
      × All (λ g. ¬ In g acc) gs
      × Distinct gs
      × ((g : String) → In g (check_groups i acc gs).0 → In g acc ⊎ In g gs)
unfolding check_groups
check_groups-declares i acc [] h = (tt, tt, tt, λ g m. inl m)
check_groups-declares i acc (g ∷ rest) h =
    let step = check_group i acc g in
    let (p, q) = append-eq-nil step.1 (check_groups (i + 1) step.0 rest).1 h in
    let (valid, new, entered) = check_group-declares i acc g p in
    let (valids, news, distinct, found) = check_groups-declares (i + 1) step.0 rest q in
    (
      (valid, valids),
      (new, All_imp rest (λ x m i. m (rw entered (inr i))) news),
      ((λ m. All_at (λ y. ¬ In y step.0) rest g m news (rw entered (inl refl))), distinct),
      λ x m. elim (found x m) [
        | inr k ↦ inr (inr k)
        | inl k ↦ elim (first_or_old x g acc (rw entered at k)) [
          | inl e ↦ inr (inl e)
          | inr o ↦ inl o
        ]
      ],
    )

-- An agent's groups are declared, and none is listed twice.
pub check_agent_groups-declared :
    (i j : ℕ) (groups seen_g gs : List String)
    → check_agent_groups i j groups seen_g gs ≡ []
    → All (λ g. In g groups) gs × All (λ g. ¬ In g seen_g) gs × Distinct gs
unfolding check_agent_groups
check_agent_groups-declared i j groups seen_g [] h = (tt, tt, tt)
check_agent_groups-declared i j groups seen_g (g ∷ rest) h =
    let undeclared =
      report (not (member string_eq g groups)) (Problem.agent_group_undeclared i j g) in
    let twice = report (member string_eq g seen_g) (Problem.agent_group_duplicate i j g) in
    let others = check_agent_groups i (j + 1) groups (g ∷ seen_g) rest in
    let (p, q) = append-eq-nil undeclared (twice ++ others) h in
    let (r, s) = append-eq-nil twice others q in
    let (ins, news, distinct) = check_agent_groups-declared i (j + 1) groups (g ∷ seen_g) rest s in
    (
      (
        member-eq-true g groups (
            report-eq-nil (not (member string_eq g groups)) (Problem.agent_group_undeclared i j g)
              p),
        ins,
      ),
      (
        not_member g seen_g
            (report-eq-nil (member string_eq g seen_g) (Problem.agent_group_duplicate i j g) r),
        All_imp rest (λ x m i. m (inr i)) news,
      ),
      ((λ m. All_at (λ y. ¬ In y (g ∷ seen_g)) rest g m news (inl refl)), distinct),
    )

pub check_agent_hub-declared :
    (i : ℕ) (hub_names : List String) (hub : String)
    → check_agent_hub i hub_names hub ≡ []
    → In hub hub_names
unfolding check_agent_hub
check_agent_hub-declared i hub_names hub h = elim (Bool-cases (hub == "")) [
  | inl p ↦ absurd (ground arith)
  | inr p ↦
      member-eq-true hub hub_names (
        report-eq-nil (not (member string_eq hub hub_names)) (Problem.hub_unknown i hub)
          (rw p at h))
]

check_acl_groups-declared :
    (problem : ℕ → String → Problem) (j : ℕ) (groups gs : List String)
    → check_acl_groups problem j groups gs ≡ []
    → All (λ g. In g groups) gs
unfolding check_acl_groups
check_acl_groups-declared problem j groups [] h = tt
check_acl_groups-declared problem j groups (g ∷ rest) h =
    let (p, q) =
      append-eq-nil (report (not (member string_eq g groups)) (problem j g))
        (check_acl_groups problem (j + 1) groups rest) h in
    (
      member-eq-true g groups (report-eq-nil (not (member string_eq g groups)) (problem j g) p),
      check_acl_groups-declared problem (j + 1) groups rest q,
    )

-- A rule that allows or denies, between groups that are declared, at least one on each side.
pub record IsRule (groups : List String) (r : Acl) : Type 0 where
  pub verb : (r.action ≡ Types.action_allow) ⊎ (r.action ≡ Types.action_deny)
  pub has_from : r.from ≢ []
  pub has_to : r.to ≢ []
  pub from_declared : All (λ g. In g groups) r.from
  pub to_declared : All (λ g. In g groups) r.to

check_acl-IsRule :
    (i : ℕ) (groups : List String) (r : Acl) → check_acl i groups r ≡ [] → IsRule groups r
unfolding check_acl
check_acl-IsRule i groups r h =
    let verb = not (r.action == Types.action_allow) && not (r.action == Types.action_deny) in
    let (a, h1) = append-eq-nil (report verb (Problem.action_invalid i r.action)) _ h in
    let (b, h2) = append-eq-nil (report (is_empty r.from) (Problem.from_empty i)) _ h1 in
    let (c, h3) = append-eq-nil (report (is_empty r.to) (Problem.to_empty i)) _ h2 in
    let (d, e) =
      append-eq-nil (check_acl_groups (Problem.from_undeclared i) 0 groups r.from)
        (check_acl_groups (Problem.to_undeclared i) 0 groups r.to) h3 in
    let known = report-eq-nil verb (Problem.action_invalid i r.action) a in
    record {
      verb = ground (arith, eq_iff r.action Types.action_allow, eq_iff r.action Types.action_deny);
      has_from = λ nil.
          absurd (let f = report-eq-nil (is_empty r.from) (Problem.from_empty i) b in ground arith);
      has_to = λ nil.
          absurd (let f = report-eq-nil (is_empty r.to) (Problem.to_empty i) c in ground arith);
      from_declared = check_acl_groups-declared (Problem.from_undeclared i) 0 groups r.from d;
      to_declared = check_acl_groups-declared (Problem.to_undeclared i) 0 groups r.to e;
    }

pub check_acls-IsRule :
    (i : ℕ) (groups : List String) (rs : List Acl)
    → check_acls i groups rs ≡ []
    → All (IsRule groups) rs
unfolding check_acls
check_acls-IsRule i groups [] h = tt
check_acls-IsRule i groups (r ∷ rest) h =
    let (p, q) = append-eq-nil (check_acl i groups r) (check_acls (i + 1) groups rest) h in
    (check_acl-IsRule i groups r p, check_acls-IsRule (i + 1) groups rest q)
