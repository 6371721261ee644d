-- ===== src/NetPolicy/Policy.antt =====
-- internal/netpolicy: the policy that the chain enforces, from the document to the verdict on a
-- packet.
use seine.Prelude.{
  String, ◌≡◌, ◌≢◌, refl, ap, ◌∙◌, ◌⊎◌, ◌↔◌, inl, inr, Bool, true, false, ◌||◌, ◌&&◌, some, [],
  ◌==◌, arith, In, member, if◌then◌else◌,
}
use seine.Prelude.Result.{ok, >>=-eq-ok, or_error}
use seine.External.{Net}
use seine.Spec.Types
use seine.Spec.Types.{Document, Agent, Acl}
use seine.NetPolicy.Compile.{
  Compiled, overlay_cidr, Members, members, group_members, expand, sort_rules, hub_addrs, compile,
}
use seine.NetPolicy.Firewall.{build_rules}
use seine.NetPolicy.Chain.{AddressMatch, walk, has_pair, walk-build_rules}
use seine.NetPolicy.Flows.{Stems, expand_iff}
use seine.NetPolicy.Groups.{Belongs, group_members_iff}
use seine.NetPolicy.Rules.{expand-Mirrors, has_pair_iff}

module _ (net : Net) where
  open net use {Addr, addr_eq, parse_addr, parse_prefix, less}

  -- A rule of the document with this verdict whose groups hold the two agents of a pair.
  pub record Covers (action : Bool) (s d : Addr) (doc : Document) : Type 0 where
    pub rule : Acl
    pub listed : In rule doc.spec.acls
    pub kind : action ≡ (rule.action == Types.action_allow)
    pub from_g : String
    pub from_listed : In from_g rule.from
    pub source : Belongs net s from_g doc.spec.agents
    pub to_g : String
    pub to_listed : In to_g rule.to
    pub dest : Belongs net d to_g doc.spec.agents
    pub differ : s ≢ d

  covers :
      (b : Bool) (s d : Addr) (m : Members net) (doc : Document)
      → group_members net [] doc.spec.agents ≡ ok m
      → Stems net b s d m doc.spec.acls ↔ Covers b s d doc
  covers b s d m doc h =
      let ends : (ip : Addr) (g : String)
          → In ip (members net m g) ↔ Belongs net ip g doc.spec.agents =
        λ ip g. group_members_iff net doc.spec.agents m ip g h in
      (
        λ k. record {
          rule = k.rule;
          listed = k.listed;
          kind = k.kind;
          from_g = k.from_g;
          from_listed = k.from_listed;
          source = (ends s k.from_g).0 k.source;
          to_g = k.to_g;
          to_listed = k.to_listed;
          dest = (ends d k.to_g).0 k.dest;
          differ = k.differ;
        },
        λ k. record {
          rule = k.rule;
          listed = k.listed;
          kind = k.kind;
          from_g = k.from_g;
          from_listed = k.from_listed;
          source = (ends s k.from_g).1 k.source;
          to_g = k.to_g;
          to_listed = k.to_listed;
          dest = (ends d k.to_g).1 k.dest;
          differ = k.differ;
        },
      )

  -- What a successful compilation is made of.
  compiled :
      (doc : Document) (c : Compiled net)
      → compile net (some doc) ≡ ok c
      → (m : Members net) × (group_members net [] doc.spec.agents ≡ ok m)
        × (c.allows ≡ sort_rules net (expand net m doc.spec.acls).allows)
        × (c.denies ≡ sort_rules net (expand net m doc.spec.acls).denies)
  unfolding compile
  compiled doc c h =
      let (overlay, p, h1) = >>=-eq-ok (or_error (parse_prefix doc.spec.cidr) overlay_cidr) _ h in
      let (m, q, h2) = >>=-eq-ok (group_members net [] doc.spec.agents) _ h1 in
      let (hubs, r, h3) = >>=-eq-ok (hub_addrs net doc.spec.hubs) _ h2 in
      (m, q, ground arith, ground arith)

  allows_iff :
      (doc : Document) (c : Compiled net) (s d : Addr)
      → compile net (some doc) ≡ ok c
      → (has_pair net c.allows s d ≡ true) ↔ Covers true s d doc
  allows_iff doc c s d h =
      let (m, q, e, e') = compiled doc c h in
      let x = expand net m doc.spec.acls in
      let one = has_pair_iff net x.allows s d in
      let two = (expand-Mirrors net m doc.spec.acls).0 (s, d) in
      let three = expand_iff net true s d m doc.spec.acls in
      let four = covers true s d m doc q in
      rw e (λ k. four.0 (three.0 (two.1 (one.0 k))), λ k. one.1 (two.0 (three.1 (four.1 k))))

  denies_iff :
      (doc : Document) (c : Compiled net) (s d : Addr)
      → compile net (some doc) ≡ ok c
      → (has_pair net c.denies s d ≡ true) ↔ Covers false s d doc
  denies_iff doc c s d h =
      let (m, q, e, e') = compiled doc c h in
      let x = expand net m doc.spec.acls in
      let one = has_pair_iff net x.denies s d in
      let two = (expand-Mirrors net m doc.spec.acls).1 (s, d) in
      let three = expand_iff net false s d m doc.spec.acls in
      let four = covers false s d m doc q in
      rw e' (λ k. four.0 (three.0 (two.1 (one.0 k))), λ k. one.1 (two.0 (three.1 (four.1 k))))

  -- The document's policy on a pair: some rule allows it and no rule denies it.
  abbrev pub Permits : Document → Addr → Addr → Type 0
  Permits doc s d = Covers true s d doc × (¬ Covers false s d doc)

  module _ (am : AddressMatch net) where
    abbrev outcome : Bool → Bool → Bool → Bool → String
    outcome hub denied allowed inside =
        if hub
        then "ACCEPT"
        else if denied
        then "DROP"
        else if allowed
        then "ACCEPT"
        else if inside
        then "DROP"
        else "RETURN"

    verdict :
        (hub denied allowed inside : Bool)
        → hub ≡ false
        → inside ≡ true
        → ((allowed ≡ true) × (denied ≢ true) × (outcome hub denied allowed inside ≡ "ACCEPT"))
          ⊎ (((allowed ≢ true) ⊎ (denied ≡ true)) × (outcome hub denied allowed inside ≡ "DROP"))
    verdict hub true allowed inside h i = inr (inr refl, ground arith)
    verdict hub false true inside h i = inl (refl, (λ e. ground arith), ground arith)
    verdict hub false false inside h i = inr (inl (λ e. ground arith), ground arith)

    -- The chain that a compiled document installs enforces its policy. A packet between two overlay
    -- addresses, neither of them a hub, is accepted if a rule allows its source's and
    -- destination's agents by their groups and no rule denies them; in every other case it is
    -- dropped.
    pub compile-enforces :
        (doc : Document) (c : Compiled net) (s d : Addr)
        → compile net (some doc) ≡ ok c
        → (member addr_eq s c.hub_ips || member addr_eq d c.hub_ips) ≡ false
        → (net.contains c.overlay s && net.contains c.overlay d) ≡ true
        → Permits doc s d × (walk net am (build_rules net c) s d ≡ some "ACCEPT")
          ⊎ (¬ Permits doc s d) × (walk net am (build_rules net c) s d ≡ some "DROP")
    compile-enforces doc c s d h no_hub inside =
        let allows = allows_iff doc c s d h in
        let denies = denies_iff doc c s d h in
        let all = walk-build_rules net am c s d in
        elim (verdict (member addr_eq s c.hub_ips || member addr_eq d c.hub_ips)
          (has_pair net c.denies s d) (has_pair net c.allows s d)
          (net.contains c.overlay s && net.contains c.overlay d) no_hub inside) [
            | inl v ↦ inl ((allows.0 (v.0), λ k. v.1 (denies.1 k)), all ∙ ap some (v.2))
            | inr v ↦ inr (
              λ k. elim (v.0) [ inl n ↦ n (allows.1 (k.0)) | inr y ↦ k.1 (denies.0 y) ],
              all ∙ ap some (v.1),
            )
          ]
