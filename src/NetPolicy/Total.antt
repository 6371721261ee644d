-- ===== src/NetPolicy/Total.antt =====
-- internal/netpolicy/netpolicy.go: `Compile` on a document that `Parse` has accepted.
use seine.Prelude.{String, ◌≡◌, refl, some, List, [], ◌∷◌, ◌++◌, map, arith}
use seine.Prelude.Result.{ok}
use seine.External.{Net}
use seine.Spec.Types.{Document, Hub, Agent}
use seine.Spec.Parse.{Decoded, parse}
use seine.Spec.Validate.Entries.{Entry, hub_entries, agent_entries}
use seine.Spec.Validate.Sound.{IsWellFormed}
use seine.Spec.Loaded.{parse-IsWellFormed}
use seine.NetPolicy.Compile.{
  Compiled, Members, join_groups, group_members, hub_addrs, compile, expand, sort_rules,
}
use seine.Prelude.Sort.{sort_slice}

module _ (net : Net) where
  open net use {Addr, parse_addr}

  -- The address of every entry parses.
  abbrev HaveAddrs : List Entry → Type 0
  HaveAddrs [] = Unit
  HaveAddrs ((n, r) ∷ es) = ((a : Addr) × (parse_addr r ≡ some a)) × HaveAddrs es

  have_addrs :
      (es : List Entry) (addrs : List Addr)
      → map (λ (e : Entry). parse_addr e.1) es ≡ map some addrs
      → HaveAddrs es
  have_addrs [] addrs h = tt
  have_addrs ((n, r) ∷ es) [] h = absurd (ground arith)
  have_addrs ((n, r) ∷ es) (a ∷ addrs) h = ((a, ground arith), have_addrs es addrs (ground arith))

  left_addrs : (xs ys : List Entry) → HaveAddrs (xs ++ ys) → HaveAddrs xs
  left_addrs [] ys h = tt
  left_addrs ((n, r) ∷ xs) ys h = (h.0, left_addrs xs ys h.1)

  right_addrs : (xs ys : List Entry) → HaveAddrs (xs ++ ys) → HaveAddrs ys
  right_addrs [] ys h = h
  right_addrs ((n, r) ∷ xs) ys h = right_addrs xs ys h.1

  hub_addrs_total :
      (hs : List Hub) → HaveAddrs (hub_entries hs) → (ips : List Addr) × (hub_addrs net hs ≡ ok ips)
  unfolding hub_addrs
  hub_addrs_total [] h = ([], refl)
  hub_addrs_total (x ∷ rest) h =
      let (a, p) = h.0 in
      let (ips, q) = hub_addrs_total rest h.1 in (a ∷ ips, rw (hub_addrs, p, q) refl)

  group_members_total :
      (m : Members net) (agents : List Agent)
      → HaveAddrs (agent_entries agents)
      → (m' : Members net) × (group_members net m agents ≡ ok m')
  unfolding group_members
  group_members_total m [] h = (m, refl)
  group_members_total m (x ∷ rest) h =
      let (a, p) = h.0 in
      let (m', q) = group_members_total (join_groups net a m x.groups) rest h.1 in
      (m', rw (group_members, p, q) refl)

  well_formed-compiles :
      (d : Document) → IsWellFormed net d → (c : Compiled net) × (compile net (some d) ≡ ok c)
  unfolding compile
  well_formed-compiles d w =
      let all =
        have_addrs (hub_entries d.spec.hubs ++ agent_entries d.spec.agents) w.addrs
          w.addrs_parsed in
      let (hubs, p) =
        hub_addrs_total d.spec.hubs
          (left_addrs (hub_entries d.spec.hubs) (agent_entries d.spec.agents) all) in
      let (m, q) =
        group_members_total [] d.spec.agents
          (right_addrs (hub_entries d.spec.hubs) (agent_entries d.spec.agents) all) in
      let cidr = w.cidr in
      let x = expand net m d.spec.acls in
      (
        record {
          allows = sort_rules net x.allows;
          denies = sort_rules net x.denies;
          hub_ips = sort_slice net.less hubs;
          overlay = w.overlay;
        },
        rw (compile, cidr, q, p) refl,
      )

  -- A document that `Parse` accepts compiles: `Compile` returns a policy and no error.
  pub parse-compiles :
      (decode : String → Decoded) (text : String) (d : Document)
      → parse net decode text ≡ ok d
      → (c : Compiled net) × (compile net (some d) ≡ ok c)
  parse-compiles decode text d h = well_formed-compiles d (parse-IsWellFormed net decode text d h)
