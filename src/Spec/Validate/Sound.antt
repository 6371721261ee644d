-- ===== src/Spec/Validate/Sound.antt =====
-- internal/spec/validate.go: a document in which `Validate` finds no problem is well formed.
use seine.Prelude.{
  String, ◌≡◌, ◌≢◌, refl, sym, ap, ◌∙◌, inl, inr, true, false, not, some, List, [], ◌++◌, map,
  arith, In, Distinct, All, append-eq-nil, Option-cases,
}
use seine.External.{Net}
use seine.Spec.Types.{Document}
use seine.Spec.Validate.Names.{valid_name}
use seine.Spec.Validate.Problems.{Problem}
use seine.Spec.Validate.{
  report, check_envelope, check_cidr, check_wireguard, check_groups, check_hubs, check_agents,
  check_acls, validate, unseen, no_hubs, is_outside,
}
use seine.Spec.Validate.Places.{report-eq-nil}
use seine.Spec.Validate.Groups.{IsRule, check_groups-declares, check_acls-IsRule, All_imp}
use seine.Spec.Validate.Entries.{
  Entry, entry_names, hub_entries, hub_names, agent_entries, IsAnchored, names_are_new,
  EntersAll-ArePlaced, IsAnchored-imp, nodes,
}

-- What the network needs of its document.
pub record IsWellFormed (net : Net) (d : Document) : Type 0 where
  -- the overlay parses to a valid prefix
  pub overlay : net.Prefix
  pub cidr : net.parse_prefix d.spec.cidr ≡ some overlay
  pub overlay_valid : net.is_valid overlay ≡ true
  -- the name of a hub or an agent is a label, and belongs to one of them only
  pub labels :
      All
        (λ n. valid_name n ≡ true)
        (entry_names (hub_entries d.spec.hubs ++ agent_entries d.spec.agents))
  pub names : Distinct (entry_names (hub_entries d.spec.hubs ++ agent_entries d.spec.agents))
  -- so does its tunnel address, which lies in the overlay
  pub addrs : List net.Addr
  pub addrs_parsed :
      map
        (λ (e : Entry). net.parse_addr e.1)
        (hub_entries d.spec.hubs ++ agent_entries d.spec.agents)
      ≡ map some addrs
  pub addrs_inside : All (λ a. net.contains overlay a ≡ true) addrs
  pub addrs_distinct : Distinct addrs
  -- the groups are distinct, agents are in declared groups and behind declared hubs
  pub groups : Distinct d.spec.groups
  pub agents : All (IsAnchored (hub_names d.spec.hubs) d.spec.groups) d.spec.agents
  -- rules connect declared groups
  pub rules : All (IsRule d.spec.groups) d.spec.acls
  pub has_hub : d.spec.hubs ≢ []

module _ (net : Net) where
  cidr_valid :
      (cidr : String)
      → check_cidr net cidr ≡ []
      → (overlay : net.Prefix) × (net.parse_prefix cidr ≡ some overlay)
        × (net.is_valid overlay ≡ true)
  unfolding check_cidr
  cidr_valid cidr h = elim (Option-cases (net.parse_prefix cidr)) [
    | inl p ↦ absurd (ground arith)
    | inr (overlay, p) ↦
        let r : report (not (net.is_valid overlay)) (Problem.cidr_invalid cidr) ≡ [] =
          rw (check_cidr, p) at h in
        let v = report-eq-nil (not (net.is_valid overlay)) (Problem.cidr_invalid cidr) r in
        (overlay, p, ground arith)
  ]

  inside-eq-true :
      (overlay : net.Prefix) (a : net.Addr)
      → net.is_valid overlay ≡ true
      → is_outside net (some overlay) a ≡ false
      → net.contains overlay a ≡ true
  unfolding is_outside
  inside-eq-true overlay a v h = ground arith

  -- The lists of problems that are all empty.
  parts :
      (d : Document)
      → validate net d ≡ []
      → (check_cidr net d.spec.cidr ≡ [])
        × ((check_groups 0 [] d.spec.groups).1 ≡ [])
        × ((check_hubs net (net.parse_prefix d.spec.cidr) 0 (unseen net) d.spec.hubs).1 ≡ [])
        × ((check_agents net
              (net.parse_prefix d.spec.cidr)
              (check_groups 0 [] d.spec.groups).0
              0
              (check_hubs net (net.parse_prefix d.spec.cidr) 0 (unseen net) d.spec.hubs).0
              d.spec.agents).1
            ≡ [])
        × (check_acls 0 (check_groups 0 [] d.spec.groups).0 d.spec.acls ≡ [])
        × (no_hubs d.spec.hubs ≡ false)
  unfolding validate
  parts d h =
      let (a, h1) = append-eq-nil (check_envelope d) _ h in
      let (b, h2) = append-eq-nil (check_cidr net d.spec.cidr) _ h1 in
      let (c, h3) = append-eq-nil (check_wireguard d.spec.wireguard) _ h2 in
      let (e, h4) = append-eq-nil (check_groups 0 [] d.spec.groups).1 _ h3 in
      let (f, h5) =
        append-eq-nil (check_hubs net (net.parse_prefix d.spec.cidr) 0 (unseen net) d.spec.hubs).1 _
          h4 in
      let (g, h6) =
        append-eq-nil
          (check_agents net (net.parse_prefix d.spec.cidr) (check_groups 0 [] d.spec.groups).0 0
            (check_hubs net (net.parse_prefix d.spec.cidr) 0 (unseen net) d.spec.hubs).0
            d.spec.agents).1
          _ h5 in
      let (i, j) =
        append-eq-nil (check_acls 0 (check_groups 0 [] d.spec.groups).0 d.spec.acls) _ h6 in
      (b, e, f, g, i, report-eq-nil (no_hubs d.spec.hubs) Problem.no_hubs j)

  -- A document in which `Validate` finds no problem is well formed: its overlay is valid, names and
  -- tunnel addresses are unique over hubs and agents, every address lies in the overlay, agents are
  -- anchored at declared hubs and are in declared groups, rules connect declared groups, and there is
  -- a hub.
  pub validate-IsWellFormed : (d : Document) → validate net d ≡ [] → IsWellFormed net d
  validate-IsWellFormed d h =
      let (cidr, groups, hubs, agents, acls, some_hub) = parts d h in
      let (overlay, parsed, valid) = cidr_valid d.spec.cidr cidr in
      let (valids, news, distinct, found) = check_groups-declares 0 [] d.spec.groups groups in
      let known = (check_groups 0 [] d.spec.groups).0 in
      let declared : (g : String) → In g known → In g d.spec.groups =
        λ g m. elim (found g m) [ inl f ↦ absurd f | inr k ↦ k ] in
      let mid = (check_hubs net (net.parse_prefix d.spec.cidr) 0 (unseen net) d.spec.hubs).0 in
      let out = (check_agents net (net.parse_prefix d.spec.cidr) known 0 mid d.spec.agents).0 in
      let entries = hub_entries d.spec.hubs ++ agent_entries d.spec.agents in
      let (all, anchored) =
        nodes net (net.parse_prefix d.spec.cidr) known d.spec.hubs d.spec.agents hubs agents in
      let (labels, free, names) =
        names_are_new net (net.parse_prefix d.spec.cidr) (unseen net) out entries all in
      let places =
        EntersAll-ArePlaced net (net.parse_prefix d.spec.cidr) (unseen net) out entries all in
      record {
        overlay = overlay;
        cidr = parsed;
        overlay_valid = valid;
        labels = labels;
        names = names;
        addrs = places.addrs;
        addrs_parsed = places.parsed;
        addrs_inside =
            All_imp places.addrs
              (λ a o.
                inside-eq-true overlay a valid (ap (λ p. is_outside net p a) (sym parsed) ∙ o))
              places.inside;
        addrs_distinct = places.distinct;
        groups = distinct;
        agents =
            IsAnchored-imp net (net.parse_prefix d.spec.cidr) known (hub_names d.spec.hubs)
              (hub_names d.spec.hubs) d.spec.groups d.spec.agents (λ n m. m) declared anchored;
        rules =
            All_imp d.spec.acls
              (λ r k. record {
                verb = k.verb;
                has_from = k.has_from;
                has_to = k.has_to;
                from_declared = All_imp r.from declared k.from_declared;
                to_declared = All_imp r.to declared k.to_declared;
              })
              (check_acls-IsRule 0 known d.spec.acls acls);
        has_hub = λ nil. absurd (let e : no_hubs d.spec.hubs ≡ true = rw nil refl in cc);
      }
