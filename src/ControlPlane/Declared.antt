-- ===== src/ControlPlane/Declared.antt =====
-- internal/controlplane/spec.go and internal/spec/lookup.go: the hub or agent that a document declares
-- under a name.
use seine.Prelude.{
  String, ◌≡◌, ◌≢◌, refl, sym, ◌∙◌, ap, ◌⊎◌, inl, inr, false, Option, none, some, List, [], ◌∷◌,
  ◌++◌, ◌==◌, All, eq_iff, Bool-cases, Option-cases, if◌then◌else◌,
}
use seine.Api.{Role, role_unspecified, role_spoke, role_hub}
use seine.Spec.Types.{Document, Hub, Agent}
use seine.Spec.Lookup.{find_hub_in, find_hub, find_agent_in, find_agent}
use seine.ControlPlane.Roles.{resolve_role, tunnel_ip_for}

-- The first element of a list that has the name.
pub record First {A : Type 0} (name_of : A → String) (name : String) (xs : List A) (x : A)
    : Type 0 where
  pub before : List A
  pub after : List A
  pub split : xs ≡ before ++ (x ∷ after)
  pub named : name_of x ≡ name
  pub others : All (λ y. name_of y ≢ name) before

abbrev first_named : {A : Type 0} → (A → String) → String → List A → Option A
first_named name_of name [] = none
first_named name_of name (x ∷ xs) =
    if name_of x == name then some x else first_named name_of name xs

pub ne-eq_false : (s t : String) → s ≢ t → (s == t) ≡ false
ne-eq_false s t h = elim (Bool-cases (s == t)) [ inl b ↦ absurd (h ((eq_iff s t).0 b)) | inr b ↦ b ]

module _ {A : Type 0} (name_of : A → String) (name : String) where
  first_named-First :
      (xs : List A) (x : A) → first_named name_of name xs ≡ some x → First name_of name xs x
  first_named-First [] x h = absurd (cc)
  first_named-First (y ∷ ys) x h = elim (Bool-cases (name_of y == name)) [
    | inl b ↦
        let t : some y ≡ some x = rw b at h in
        let e : y ≡ x = cc in
        record {
          before = [];
          after = ys;
          split = ap (λ z. z ∷ ys) e;
          named = ap name_of (sym e) ∙ (eq_iff (name_of y) name).0 b;
          others = tt;
        }
    | inr b ↦
        let t : first_named name_of name ys ≡ some x = rw b at h in
        let r = first_named-First ys x t in
        let apart : name_of y ≢ name = λ e. let q = (eq_iff (name_of y) name).1 e in cc in
        record {
          before = y ∷ r.before;
          after = r.after;
          split = ap (λ zs. y ∷ zs) r.split;
          named = r.named;
          others = (apart, r.others);
        }
  ]

  first_named_split :
      (before after : List A) (x : A)
      → name_of x ≡ name
      → All (λ y. name_of y ≢ name) before
      → first_named name_of name (before ++ (x ∷ after)) ≡ some x
  first_named_split [] after x e h = rw ((eq_iff (name_of x) name).1 e) refl
  first_named_split (y ∷ ys) after x e h =
      rw (ne-eq_false (name_of y) name h.0) (first_named_split ys after x e h.1)

  first_named-none :
      (xs : List A) → All (λ y. name_of y ≢ name) xs → first_named name_of name xs ≡ none
  first_named-none [] h = refl
  first_named-none (y ∷ ys) h = rw (ne-eq_false (name_of y) name h.0) (first_named-none ys h.1)

  none-All : (xs : List A) → first_named name_of name xs ≡ none → All (λ y. name_of y ≢ name) xs
  none-All [] h = tt
  none-All (y ∷ ys) h = elim (Bool-cases (name_of y == name)) [
    | inl b ↦ absurd (let t : some y ≡ none = rw b at h in cc)
    | inr b ↦
        let t : first_named name_of name ys ≡ none = rw b at h in
        ((λ e. let q = (eq_iff (name_of y) name).1 e in cc), none-All ys t)
  ]

abbrev pub hub_name : Hub → String
hub_name h = h.name

abbrev pub agent_name : Agent → String
agent_name a = a.name

find_hub_in-eq :
    (name : String) (hs : List Hub) → find_hub_in name hs ≡ first_named hub_name name hs
unfolding find_hub_in
find_hub_in-eq name [] = refl
find_hub_in-eq name (h ∷ hs) = rw (find_hub_in-eq name hs) refl

find_agent_in-eq :
    (name : String) (rest : List Agent) → find_agent_in name rest ≡ first_named agent_name name rest
unfolding find_agent_in
find_agent_in-eq name [] = refl
find_agent_in-eq name (a ∷ rest) = rw (find_agent_in-eq name rest) refl

-- The document declares a hub of the name, or no hub but an agent; its role and tunnel address.
abbrev pub Declares : Option Document → String → Role → String → Type 0
Declares doc name role ip =
    (d : Document) × (doc ≡ some d)
    × (((h : Hub) × First hub_name name d.spec.hubs h × (role ≡ role_hub) × (ip ≡ h.tunnel_ip))
        ⊎ (All (λ h. hub_name h ≢ name) d.spec.hubs
            × ((a : Agent) × First agent_name name d.spec.agents a
                × (role ≡ role_spoke)
                × (ip ≡ a.tunnel_ip))))

abbrev hub_found : Document → String → Option Hub
hub_found d name = first_named hub_name name d.spec.hubs

abbrev agent_found : Document → String → Option Agent
agent_found d name = first_named agent_name name d.spec.agents

resolved_hub :
    (d : Document) (name : String) (h : Hub)
    → hub_found d name ≡ some h
    → ((resolve_role (some d) name).0 ≡ role_hub) × (tunnel_ip_for (some d) name ≡ h.tunnel_ip)
unfolding resolve_role tunnel_ip_for find_hub
resolved_hub d name h p =
    let q = find_hub_in-eq name d.spec.hubs ∙ p in
    (rw (resolve_role, find_hub, q) refl, rw (tunnel_ip_for, find_hub, q) refl)

resolved_agent :
    (d : Document) (name : String) (a : Agent)
    → hub_found d name ≡ none
    → agent_found d name ≡ some a
    → ((resolve_role (some d) name).0 ≡ role_spoke) × (tunnel_ip_for (some d) name ≡ a.tunnel_ip)
unfolding resolve_role tunnel_ip_for find_hub find_agent
resolved_agent d name a p p' =
    let q = find_hub_in-eq name d.spec.hubs ∙ p in
    let q' = find_agent_in-eq name d.spec.agents ∙ p' in
    (
      rw (resolve_role, find_hub, find_agent, q, q') refl,
      rw (tunnel_ip_for, find_hub, find_agent, q, q') refl,
    )

resolved_nothing :
    (d : Document) (name : String)
    → hub_found d name ≡ none
    → agent_found d name ≡ none
    → (resolve_role (some d) name).0 ≡ role_unspecified
unfolding resolve_role find_hub find_agent
resolved_nothing d name p p' =
    let q = find_hub_in-eq name d.spec.hubs ∙ p in
    let q' = find_agent_in-eq name d.spec.agents ∙ p' in
    rw (resolve_role, find_hub, find_agent, q, q') refl

-- What is resolved is what the document declares.
pub resolved-Declares :
    (doc : Option Document) (name : String)
    → (resolve_role doc name).0 ≢ role_unspecified
    → Declares doc name (resolve_role doc name).0 (tunnel_ip_for doc name)
resolved-Declares none name h = absurd (h (unfold resolve_role in refl))
resolved-Declares (some d) name h = elim (Option-cases (hub_found d name)) [
  | inr (x, p) ↦
      let (r, t) = resolved_hub d name x p in
      (d, refl, inl (x, first_named-First hub_name name d.spec.hubs x p, r, t))
  | inl p ↦ elim (Option-cases (agent_found d name)) [
    | inr (x, p') ↦
        let (r, t) = resolved_agent d name x p p' in
        (
          d,
          refl,
          inr (
            none-All hub_name name d.spec.hubs p,
            (x, first_named-First agent_name name d.spec.agents x p', r, t),
          ),
        )
    | inl p' ↦ absurd (h (resolved_nothing d name p p'))
  ]
]

First-found :
    {A : Type 0} (name_of : A → String) (name : String) (xs : List A) (x : A)
    → First name_of name xs x
    → first_named name_of name xs ≡ some x
First-found name_of name xs x f =
    rw (f.split) (first_named_split name_of name f.before f.after x f.named f.others)

-- What the document declares is resolved.
pub Declares-resolved :
    (doc : Option Document) (name : String) (role : Role) (ip : String)
    → Declares doc name role ip
    → ((resolve_role doc name).0 ≡ role) × (tunnel_ip_for doc name ≡ ip) × (role ≢ role_unspecified)
Declares-resolved doc name role ip (d, e, inl (x, f, r, t)) =
    let (r', t') = resolved_hub d name x (First-found hub_name name d.spec.hubs x f) in
    rw e (r' ∙ sym r, t' ∙ sym t, λ u. cc)
Declares-resolved doc name role ip (d, e, inr (all, (x, f, r, t))) =
    let (r', t') =
      resolved_agent d name x (first_named-none hub_name name d.spec.hubs all)
        (First-found agent_name name d.spec.agents x f) in
    rw e (r' ∙ sym r, t' ∙ sym t, λ u. cc)
