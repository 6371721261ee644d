-- ===== src/NetPolicy/Rules.antt =====
-- internal/netpolicy/netpolicy.go: the compiled rules are the pairs that the loops collect, sorted.
use seine.Prelude.{
  ◌≡◌, refl, ◌⊎◌, ◌↔◌, inl, inr, Bool, true, false, List, [], ◌∷◌, ◌++◌, ◌==◌, arith, In,
  In-append_left, In-append_right, In_of_append, member, member→In, In→member, pair_eq, each,
  if◌then◌else◌,
}
use seine.Prelude.Sort.{insert_sorted, sort_slice}
use seine.External.{Net}
use seine.Spec.Types
use seine.Spec.Types.{Document, Agent, Acl}
use seine.NetPolicy.Compile.{
  Rule, Expansion, Members, members, add_pair, add_dests, add_sources, add_groups, add_rule,
  nothing, expand, rule_less, sort_rules,
}
use seine.NetPolicy.Chain.{pairs, has_pair}

-- A loop keeps what its body keeps.
each-keeps :
    {S A : Type 0} (P : S → Type 0) (f : S → A → S)
    → ((s : S) (a : A) → P s → P (f s a))
    → (s : S) (xs : List A) → P s
    → P (each f s xs)
each-keeps P f keeps s [] p = p
each-keeps P f keeps s (x ∷ xs) p = each-keeps P f keeps (f s x) xs (keeps s x p)

if-keeps :
    {S : Type 0} (Kept : S → Type 0) (test : Bool) {then_s else_s : S}
    → Kept then_s
    → Kept else_s
    → Kept (if test then then_s else else_s)
if-keeps Kept true h i = h
if-keeps Kept false h i = i

module _ (net : Net) where
  open net use {Addr, addr_eq, parse_addr, parse_prefix, less}

  -- The sets of seen pairs are the pairs of the rules.
  abbrev pub Mirrors : Expansion net → Type 0
  Mirrors x =
      ((p : Addr × Addr) → In p x.seen_allow ↔ In p (pairs net x.allows))
      × ((p : Addr × Addr) → In p x.seen_deny ↔ In p (pairs net x.denies))

  pairs-append : (xs ys : List (Rule net)) → pairs net (xs ++ ys) ≡ pairs net xs ++ pairs net ys
  pairs-append [] ys = refl
  pairs-append (x ∷ xs) ys = ground (arith, pairs-append xs ys)

  grows :
      (seen_ps : List (Addr × Addr)) (rules : List (Rule net)) (r : Rule net)
      → ((p : Addr × Addr) → In p seen_ps ↔ In p (pairs net rules))
      → (p : Addr × Addr) → In p ((r.source, r.dest) ∷ seen_ps) ↔ In p (pairs net (rules ++ r ∷ []))
  grows seen_ps rules r h p = rw (pairs-append rules (r ∷ [])) (
    λ q. elim q [
      | inl e ↦ In-append_right p (pairs net rules) ((r.source, r.dest) ∷ []) (inl e)
      | inr i ↦ In-append_left p (pairs net rules) ((r.source, r.dest) ∷ []) ((h p).0 i)
    ],
    λ q. elim (In_of_append p (pairs net rules) ((r.source, r.dest) ∷ []) q) [
      | inl i ↦ inr ((h p).1 i)
      | inr e ↦ elim e [ inl k ↦ inl k | inr f ↦ absurd f ]
    ],
  )

  add_pair-Mirrors :
      (a : Bool) (src : Addr) (x : Expansion net) (dst : Addr)
      → Mirrors x
      → Mirrors (add_pair net a src x dst)
  unfolding add_pair
  add_pair-Mirrors a src x dst h = if-keeps Mirrors (addr_eq.beq src dst) h (
      if-keeps Mirrors a
        (if-keeps Mirrors (member (pair_eq addr_eq addr_eq) (src, dst) x.seen_allow) h (
          grows x.seen_allow x.allows (record { source = src; dest = dst; allow = true }) (h.0),
          h.1,
        ))
        (if-keeps Mirrors (member (pair_eq addr_eq addr_eq) (src, dst) x.seen_deny) h (
          h.0,
          grows x.seen_deny x.denies (record { source = src; dest = dst; allow = false }) (h.1),
        )))

  add_rule-Mirrors :
      (m : Members net) (x : Expansion net) (r : Acl) → Mirrors x → Mirrors (add_rule net m x r)
  unfolding add_rule add_groups add_sources add_dests
  add_rule-Mirrors m x r h =
      let a = r.action == Types.action_allow in
      each-keeps Mirrors (add_groups net a m r.to)
        (λ x1 from_g.
          each-keeps Mirrors (add_sources net a m (members net m from_g))
            (λ x2 to_g.
              each-keeps Mirrors (add_dests net a (members net m to_g))
                (λ x3 src.
                  each-keeps Mirrors (add_pair net a src) (λ x4 dst. add_pair-Mirrors a src x4 dst)
                    x3 (members net m to_g))
                x2 (members net m from_g))
            x1 r.to)
        x r.from h

  pub expand-Mirrors : (m : Members net) (acls : List Acl) → Mirrors (expand net m acls)
  unfolding expand
  expand-Mirrors m acls =
      each-keeps Mirrors (add_rule net m) (λ x r. add_rule-Mirrors m x r) (nothing net) acls
        (λ p. (λ q. q, λ q. q), λ p. (λ q. q, λ q. q))

  insert_sorted-pairs :
      (r : Rule net) (rs : List (Rule net)) (p : Addr × Addr)
      → In p (pairs net (insert_sorted (rule_less net) r rs))
        ↔ (p ≡ (r.source, r.dest) ⊎ In p (pairs net rs))
  unfolding insert_sorted
  insert_sorted-pairs r [] p = (λ q. q, λ q. q)
  insert_sorted-pairs r (y ∷ ys) p =
      let ih = insert_sorted-pairs r ys p in
      if-keeps (λ l. In p (pairs net l) ↔ (p ≡ (r.source, r.dest) ⊎ In p (pairs net (y ∷ ys))))
        (rule_less net y r)
        (
          λ q. elim q [
            | inl e ↦ inr (inl e)
            | inr i ↦ elim (ih.0 i) [ inl e ↦ inl e | inr k ↦ inr (inr k) ]
          ],
          λ q. elim q [
            | inl e ↦ inr (ih.1 (inl e))
            | inr i ↦ elim i [ inl e ↦ inl e | inr k ↦ inr (ih.1 (inr k)) ]
          ],
        )
        (λ q. q, λ q. q)

  sort_rules-pairs :
      (rs : List (Rule net)) (p : Addr × Addr)
      → In p (pairs net (sort_rules net rs)) ↔ In p (pairs net rs)
  unfolding sort_rules sort_slice
  sort_rules-pairs [] p = (λ q. q, λ q. q)
  sort_rules-pairs (r ∷ rest) p =
      let ih = sort_rules-pairs rest p in
      let one = insert_sorted-pairs r (sort_rules net rest) p in
      (
        λ q. elim (one.0 q) [ inl e ↦ inl e | inr i ↦ inr (ih.0 i) ],
        λ q. elim q [ inl e ↦ one.1 (inl e) | inr i ↦ one.1 (inr (ih.1 i)) ],
      )

  pub has_pair_iff :
      (rs : List (Rule net)) (s d : Addr)
      → (has_pair net (sort_rules net rs) s d ≡ true) ↔ In (s, d) (pairs net rs)
  has_pair_iff rs s d = (
    λ h.
        (sort_rules-pairs rs (s, d)).0
          (member→In (pair_eq addr_eq addr_eq) (s, d) (pairs net (sort_rules net rs)) h),
    λ i.
        In→member (pair_eq addr_eq addr_eq) (s, d) (pairs net (sort_rules net rs))
          ((sort_rules-pairs rs (s, d)).1 i),
  )
