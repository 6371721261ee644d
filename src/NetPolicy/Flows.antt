-- ===== src/NetPolicy/Flows.antt =====
-- internal/netpolicy/netpolicy.go: which pairs of addresses the loops of `Compile` collect.
use seine.Prelude.{
  String, ◌≡◌, ◌≢◌, refl, sym, ap, ◌⊎◌, ◌↔◌, inl, inr, Bool, true, false, xor, List, ◌∷◌, ◌==◌,
  arith, Bool-cases, In, member, member→In, pair_eq, if◌then◌else◌,
}
use mathlib.Core.Bool.{false≢true}
use seine.External.{Net}
use seine.Spec.Types
use seine.Spec.Types.{Document, Agent, Acl}
use seine.NetPolicy.Compile.{
  Expansion, Members, members, add_pair, add_dests, add_sources, add_groups, add_rule, nothing,
  expand,
}
use seine.NetPolicy.Loops.{Some, Some→In, In→Some, each-adds}

module _ (net : Net) where
  open net use {Addr, addr_eq, parse_addr}

  -- `seenAllow` or `seenDeny`
  abbrev pub seen : Bool → Expansion net → List (Addr × Addr)
  seen true x = x.seen_allow
  seen false x = x.seen_deny

  abbrev Holds : Bool → Addr → Addr → Expansion net → Type 0
  Holds b s d x = In (s, d) (seen b x)

  -- What the innermost loop body adds: the pair itself, if its ends differ.
  abbrev Adds : Bool → Addr → Addr → Bool → Addr → Addr → Type 0
  Adds b s d a src dst = (b ≡ a) × (s ≡ src) × (d ≡ dst) × (src ≢ dst)

  pair_iff :
      (s d src dst : Addr) → (◌≡◌ {A = Addr × Addr} (s, d) (src, dst)) ↔ ((s ≡ src) × (d ≡ dst))
  pair_iff s d src dst = (
    λ e. (ap (λ (t : Addr × Addr). t.0) e, ap (λ (t : Addr × Addr). t.1) e),
    λ h i. (h.0 i, h.1 i),
  )

  inserts :
      (s d src dst : Addr) (l : List (Addr × Addr))
      → In (s, d) (if member (pair_eq addr_eq addr_eq) (src, dst) l then l else (src, dst) ∷ l)
        ↔ (In (s, d) l ⊎ (s ≡ src) × (d ≡ dst))
  inserts s d src dst l = elim (Bool-cases (member (pair_eq addr_eq addr_eq) (src, dst) l)) [
    | inl p ↦
        let m : In (src, dst) l = member→In (pair_eq addr_eq addr_eq) (src, dst) l p in
        rw p (inl, λ h. elim h [ inl q ↦ q | inr e ↦ rw (e.0, e.1) m ])
    | inr p ↦ rw p (
      λ h. elim h [ inl e ↦ inr ((pair_iff s d src dst).0 e) | inr q ↦ inl q ],
      λ h. elim h [ inl q ↦ inr q | inr e ↦ inl ((pair_iff s d src dst).1 e) ],
    )
  ]

  add_pair-seen :
      (b a : Bool) (src : Addr) (x : Expansion net) (dst : Addr)
      → addr_eq.beq src dst ≡ false
      → seen b (add_pair net a src x dst) ≡ (
          if xor b a
          then seen b x
          else if member (pair_eq addr_eq addr_eq) (src, dst) (seen b x)
          then seen b x
          else (src, dst) ∷ seen b x)
  unfolding add_pair xor
  add_pair-seen true true src x dst p = ground arith
  add_pair-seen true false src x dst p = ground arith
  add_pair-seen false true src x dst p = ground arith
  add_pair-seen false false src x dst p = ground arith

  add_pair-same :
      (a : Bool) (src : Addr) (x : Expansion net) (dst : Addr)
      → addr_eq.beq src dst ≡ true
      → add_pair net a src x dst ≡ x
  unfolding add_pair
  add_pair-same a src x dst p = rw p refl

  inserted_here :
      (b : Bool) (s d src dst : Addr) (l : List (Addr × Addr))
      → src ≢ dst
      → In (s, d) (if member (pair_eq addr_eq addr_eq) (src, dst) l then l else (src, dst) ∷ l)
        ↔ (In (s, d) l ⊎ Adds b s d b src dst)
  inserted_here b s d src dst l differ =
      let both = inserts s d src dst l in
      (
        λ h. elim (both.0 h) [ inl q ↦ inl q | inr e ↦ inr (refl, e.0, e.1, differ) ],
        λ h. elim h [ inl q ↦ both.1 (inl q) | inr e ↦ both.1 (inr (e.1, e.2)) ],
      )

  inserted_if_same :
      (b a : Bool) (s d src dst : Addr) (l : List (Addr × Addr))
      → src ≢ dst
      → In
          (s, d)
          (if xor b a
            then l
            else if member (pair_eq addr_eq addr_eq) (src, dst) l
            then l
            else (src, dst) ∷ l)
        ↔ (In (s, d) l ⊎ Adds b s d a src dst)
  unfolding xor
  inserted_if_same true true s d src dst l differ = inserted_here true s d src dst l differ
  inserted_if_same true false s d src dst l differ =
      (inl, λ h. elim h [ inl q ↦ q | inr e ↦ absurd (false≢true (sym e.0)) ])
  inserted_if_same false true s d src dst l differ =
      (inl, λ h. elim h [ inl q ↦ q | inr e ↦ absurd (false≢true e.0) ])
  inserted_if_same false false s d src dst l differ = inserted_here false s d src dst l differ

  add_pair-Adds :
      (b : Bool) (s d : Addr) (a : Bool) (src : Addr) (x : Expansion net) (dst : Addr)
      → Holds b s d (add_pair net a src x dst) ↔ (Holds b s d x ⊎ Adds b s d a src dst)
  add_pair-Adds b s d a src x dst = elim (Bool-cases (addr_eq.beq src dst)) [
    | inl p ↦
        let same = (addr_eq.beq_iff src dst).0 p in
        rw (add_pair-same a src x dst p)
          (inl, λ h. elim h [ inl q ↦ q | inr e ↦ absurd (e.3 same) ])
    | inr p ↦
        let differ : src ≢ dst = λ e. ground (arith, addr_eq.beq_iff src dst) in
        rw (add_pair-seen b a src x dst p) (inserted_if_same b a s d src dst (seen b x) differ)
  ]

  -- A rule that covers a pair, with the groups and the members it covers the pair by.
  pub record Stems (b : Bool) (s d : Addr) (m : Members net) (acls : List Acl) : Type 0 where
    pub rule : Acl
    pub listed : In rule acls
    pub kind : b ≡ (rule.action == Types.action_allow)
    pub from_g : String
    pub from_listed : In from_g rule.from
    pub source : In s (members net m from_g)
    pub to_g : String
    pub to_listed : In to_g rule.to
    pub dest : In d (members net m to_g)
    pub differ : s ≢ d

  module _ (b : Bool) (s d : Addr) where
    abbrev FromDests : Bool → Addr → List Addr → Type 0
    FromDests a src dests = Some (Adds b s d a src) dests

    add_dests-adds :
        (a : Bool) (dests : List Addr) (x : Expansion net) (src : Addr)
        → Holds b s d (add_dests net a dests x src) ↔ (Holds b s d x ⊎ FromDests a src dests)
    unfolding add_dests
    add_dests-adds a dests x src =
        each-adds (Holds b s d) (Adds b s d a src) (add_pair net a src)
          (λ y dst. add_pair-Adds b s d a src y dst) x dests

    abbrev FromSources : Bool → Members net → List Addr → String → Type 0
    FromSources a m sources to_g = Some (λ src. FromDests a src (members net m to_g)) sources

    add_sources-adds :
        (a : Bool) (m : Members net) (sources : List Addr) (x : Expansion net) (to_g : String)
        → Holds b s d (add_sources net a m sources x to_g)
          ↔ (Holds b s d x ⊎ FromSources a m sources to_g)
    unfolding add_sources
    add_sources-adds a m sources x to_g =
        each-adds (Holds b s d) (λ src. FromDests a src (members net m to_g))
          (add_dests net a (members net m to_g))
          (λ y src. add_dests-adds a (members net m to_g) y src) x sources

    abbrev FromGroup : Bool → Members net → List String → String → Type 0
    FromGroup a m to from_g = Some (FromSources a m (members net m from_g)) to

    add_groups-adds :
        (a : Bool) (m : Members net) (to : List String) (x : Expansion net) (from_g : String)
        → Holds b s d (add_groups net a m to x from_g) ↔ (Holds b s d x ⊎ FromGroup a m to from_g)
    unfolding add_groups
    add_groups-adds a m to x from_g =
        each-adds (Holds b s d) (FromSources a m (members net m from_g))
          (add_sources net a m (members net m from_g))
          (λ y to_g. add_sources-adds a m (members net m from_g) y to_g) x to

    abbrev FromRule : Members net → Acl → Type 0
    FromRule m r = Some (FromGroup (r.action == Types.action_allow) m r.to) r.from

    add_rule-adds :
        (m : Members net) (x : Expansion net) (r : Acl)
        → Holds b s d (add_rule net m x r) ↔ (Holds b s d x ⊎ FromRule m r)
    unfolding add_rule
    add_rule-adds m x r =
        each-adds (Holds b s d) (FromGroup (r.action == Types.action_allow) m r.to)
          (add_groups net (r.action == Types.action_allow) m r.to)
          (λ y from_g. add_groups-adds (r.action == Types.action_allow) m r.to y from_g) x r.from

    expand-adds :
        (m : Members net) (acls : List Acl)
        → Holds b s d (expand net m acls) ↔ (Holds b s d (nothing net) ⊎ Some (FromRule m) acls)
    unfolding expand
    expand-adds m acls =
        each-adds (Holds b s d) (FromRule m) (add_rule net m) (λ y r. add_rule-adds m y r)
          (nothing net) acls

    none_yet : (b' : Bool) → In (s, d) (seen b' (nothing net)) → ⊥
    none_yet true m = m
    none_yet false m = m

    stems : (m : Members net) (acls : List Acl) → Some (FromRule m) acls → Stems b s d m acls
    stems m acls h =
        let (r, r_in, h1) = Some→In (FromRule m) acls h in
        let a = r.action == Types.action_allow in
        let (f, f_in, h2) = Some→In (FromGroup a m r.to) r.from h1 in
        let (t, t_in, h3) = Some→In (FromSources a m (members net m f)) r.to h2 in
        let (src, src_in, h4) =
          Some→In (λ x. FromDests a x (members net m t)) (members net m f) h3 in
        let (dst, dst_in, h5) = Some→In (Adds b s d a src) (members net m t) h4 in
        record {
          rule = r;
          listed = r_in;
          kind = h5.0;
          from_g = f;
          from_listed = f_in;
          source = rw (h5.1) src_in;
          to_g = t;
          to_listed = t_in;
          dest = rw (h5.2) dst_in;
          differ = rw (h5.1, h5.2) (h5.3);
        }

    collected : (m : Members net) (acls : List Acl) → Stems b s d m acls → Some (FromRule m) acls
    collected m acls h =
        let r = h.rule in
        let a = r.action == Types.action_allow in
        let h4 =
          In→Some (Adds b s d a s) (members net m h.to_g) d h.dest (h.kind, refl, refl, h.differ) in
        let h3 =
          In→Some (λ x. FromDests a x (members net m h.to_g)) (members net m h.from_g) s h.source
            h4 in
        let h2 = In→Some (FromSources a m (members net m h.from_g)) r.to h.to_g h.to_listed h3 in
        let h1 = In→Some (FromGroup a m r.to) r.from h.from_g h.from_listed h2 in
        In→Some (FromRule m) acls r h.listed h1

    -- The loops collect a pair as allowed (or denied) exactly if a rule of that kind covers it: one
    -- of its source groups has the source as a member, one of its destination groups the
    -- destination, and the two differ.
    pub expand_iff :
        (m : Members net) (acls : List Acl)
        → In (s, d) (seen b (expand net m acls)) ↔ Stems b s d m acls
    expand_iff m acls =
        let both = expand-adds m acls in
        (
          λ h. elim (both.0 h) [ inl q ↦ absurd (none_yet b q) | inr q ↦ stems m acls q ],
          λ h. both.1 (inr (collected m acls h)),
        )
