-- ===== src/Spec/Validate.antt =====
-- internal/spec/validate.go: `Validate` with its loops. The `add` closure's list of errors is the
-- list of problems that a step returns; the maps are association lists threaded through the loops.
pub mod Names
pub mod Problems
pub mod Places
pub mod Groups
pub mod Entries
pub mod Sound
use seine.Prelude.{
  ℕ, ◌+◌, String, Bool, true, false, not, ◌&&◌, ◌||◌, Option, none, some, List, [], ◌∷◌, ◌++◌, ◌==◌,
  if◌then◌else◌, is_some, member, lookup, string_eq,
}
use seine.Prelude.Int.{ℤ, pos, ltb_ℤ}
use seine.External.{Net}
use seine.Spec.Types
use seine.Spec.Types.{Document, Network, Hub, Agent, Acl, WireGuard}
use seine.Spec.Validate.Names.{valid_name}
use seine.Spec.Validate.Problems.{
  Owner, Site, EndpointError, Problem, hub_owner, agent_owner, hub_at, agent_at, not_host_port,
  host_empty, bad_port,
}

-- `add` under a condition
abbrev pub report : Bool → Problem → List Problem
report true p = p ∷ []
report false p = []

-- The maps `names`, `tunnelIPs` and `hubNames`.
pub record Seen (A : Type 0) : Type 0 where
  pub names : List (String × Owner)
  pub tunnel_ips : List (A × String)
  pub hub_names : List String

-- the checks of `apiVersion`, `kind` and `metadata.name`
unfoldable pub check_envelope : Document → List Problem
check_envelope d =
    report (not (d.api_version == Types.api_version)) (Problem.api_version d.api_version)
    ++ (report (not (d.kind == Types.kind)) (Problem.kind d.kind)
        ++ report (not (valid_name d.metadata.name)) (Problem.metadata_name d.metadata.name))

-- the checks of `spec.wireguard`
unfoldable pub check_wireguard : WireGuard → List Problem
check_wireguard wg =
    report (ltb_ℤ wg.mtu (pos 1280) || ltb_ℤ (pos 1500) wg.mtu) (Problem.mtu wg.mtu)
    ++ report (ltb_ℤ wg.hub_listen_port (pos 1) || ltb_ℤ (pos 65535) wg.hub_listen_port)
        (Problem.hub_listen_port wg.hub_listen_port)

-- one round of the loop over `spec.groups`, with the declared groups so far
unfoldable pub check_group : ℕ → List String → String → List String × List Problem
check_group i groups g =
    if not (valid_name g)
    then (groups, Problem.group_name i g ∷ [])
    else if member string_eq g groups
    then (groups, Problem.group_duplicate i g ∷ [])
    else (g ∷ groups, [])

unfoldable pub check_groups : ℕ → List String → List String → List String × List Problem
unfolding check_group
check_groups i groups [] = (groups, [])
check_groups i groups (g ∷ rest) =
    let step = check_group i groups g in
    let others = check_groups (i + 1) step.0 rest in (others.0, step.1 ++ others.1)

module _ {A : Type 0} where
  -- the name checks of a hub: `names[name]` and `hubNames[name]`
  unfoldable pub check_hub_name : ℕ → Seen A → String → Seen A × List Problem
  check_hub_name i seen name =
      if not (valid_name name)
      then (seen, Problem.name_invalid (hub_at i) name ∷ [])
      else elim (lookup string_eq name seen.names) [
        | some other ↦ (seen, Problem.name_used (hub_at i) name other ∷ [])
        | none ↦ (
          record seen { names = (name, hub_owner) ∷ seen.names; hub_names = name ∷ seen.hub_names },
          [],
        )
      ]

  unfoldable pub check_agent_name : ℕ → Seen A → String → Seen A × List Problem
  check_agent_name i seen name =
      if not (valid_name name)
      then (seen, Problem.name_invalid (agent_at i) name ∷ [])
      else elim (lookup string_eq name seen.names) [
        | some other ↦ (seen, Problem.name_used (agent_at i) name other ∷ [])
        | none ↦ (record seen { names = (name, agent_owner) ∷ seen.names }, [])
      ]

-- the loop over an agent's groups
unfoldable pub check_agent_groups : ℕ → ℕ → List String → List String → List String → List Problem
check_agent_groups i j groups seen_g [] = []
check_agent_groups i j groups seen_g (g ∷ rest) =
    report (not (member string_eq g groups)) (Problem.agent_group_undeclared i j g)
    ++ (report (member string_eq g seen_g) (Problem.agent_group_duplicate i j g)
        ++ check_agent_groups i (j + 1) groups (g ∷ seen_g) rest)

-- the check of an agent's `hub`
unfoldable pub check_agent_hub : ℕ → List String → String → List Problem
check_agent_hub i hub_names hub =
    if hub == ""
    then Problem.hub_required i ∷ []
    else report (not (member string_eq hub hub_names)) (Problem.hub_unknown i hub)

-- the two loops over a rule's groups; the flag says which list the group stands in
unfoldable pub check_acl_groups :
    (ℕ → String → Problem) → ℕ → List String → List String → List Problem
check_acl_groups problem j groups [] = []
check_acl_groups problem j groups (g ∷ rest) =
    report (not (member string_eq g groups)) (problem j g)
    ++ check_acl_groups problem (j + 1) groups rest

abbrev pub is_empty : List String → Bool
is_empty [] = true
is_empty (x ∷ xs) = false

unfoldable pub check_acl : ℕ → List String → Acl → List Problem
unfolding check_acl_groups
check_acl i groups r =
    report (not (r.action == Types.action_allow) && not (r.action == Types.action_deny))
      (Problem.action_invalid i r.action)
    ++ (report (is_empty r.from) (Problem.from_empty i)
        ++ (report (is_empty r.to) (Problem.to_empty i)
            ++ (check_acl_groups (Problem.from_undeclared i) 0 groups r.from
                ++ check_acl_groups (Problem.to_undeclared i) 0 groups r.to)))

unfoldable pub check_acls : ℕ → List String → List Acl → List Problem
unfolding check_acl
check_acls i groups [] = []
check_acls i groups (r ∷ rest) = check_acl i groups r ++ check_acls (i + 1) groups rest

abbrev pub no_hubs : List Hub → Bool
no_hubs [] = true
no_hubs (h ∷ hubs) = false

module _ (net : Net) where
  open net use {
    Addr, addr_eq, parse_addr, Prefix, parse_prefix, is_valid, contains, split_host_port, atoi,
  }

  unfoldable pub validate_endpoint : String → Option EndpointError
  validate_endpoint ep = elim (split_host_port ep) [
    | none ↦ some not_host_port
    | some (host, port) ↦ if host == "" then some host_empty else elim (atoi port) [
      | none ↦ some bad_port
      | some p ↦ if ltb_ℤ p (pos 1) || ltb_ℤ (pos 65535) p then some bad_port else none
    ]
  ]

  -- the checks of a hub's `endpoint`
  unfoldable pub check_endpoint : ℕ → String → List Problem
  unfolding validate_endpoint
  check_endpoint i ep =
      if ep == ""
      then Problem.endpoint_required i ∷ []
      else elim (validate_endpoint ep) [ none ↦ [] | some e ↦ Problem.endpoint_malformed i e ∷ [] ]

  -- the checks of `spec.cidr`; `overlay` is the zero prefix, which is not valid, where it is `none`
  unfoldable pub check_cidr : String → List Problem
  check_cidr cidr = elim (parse_prefix cidr) [
    | none ↦ Problem.cidr_unparsable cidr ∷ []
    | some overlay ↦ report (not (is_valid overlay)) (Problem.cidr_invalid cidr)
  ]

  -- `overlay.IsValid() && !overlay.Contains(addr)`
  unfoldable pub is_outside : Option Prefix → Addr → Bool
  is_outside none addr = false
  is_outside (some overlay) addr = is_valid overlay && not (contains overlay addr)

  unfoldable pub check_addr_in_overlay :
      Option Prefix → Site → String → Seen Addr → Seen Addr × List Problem
  unfolding is_outside
  check_addr_in_overlay overlay path raw seen = elim (parse_addr raw) [
    | none ↦ (seen, Problem.tunnel_ip_unparsable path raw ∷ [])
    | some addr ↦
        let outside = report (is_outside overlay addr) (Problem.tunnel_ip_outside path raw) in
        elim (lookup addr_eq addr seen.tunnel_ips) [
          | some other ↦ (seen, outside ++ Problem.tunnel_ip_used path raw other ∷ [])
          | none ↦ (record seen { tunnel_ips = (addr, raw) ∷ seen.tunnel_ips }, outside)
        ]
  ]

  -- one round of the loop over `spec.hubs`
  unfoldable pub check_hub : Option Prefix → ℕ → Seen Addr → Hub → Seen Addr × List Problem
  unfolding check_hub_name check_endpoint check_addr_in_overlay
  check_hub overlay i seen h =
      let named = check_hub_name i seen h.name in
      let addressed = check_addr_in_overlay overlay (hub_at i) h.tunnel_ip named.0 in
      (addressed.0, named.1 ++ (check_endpoint i h.endpoint ++ addressed.1))

  unfoldable pub check_hubs : Option Prefix → ℕ → Seen Addr → List Hub → Seen Addr × List Problem
  unfolding check_hub
  check_hubs overlay i seen [] = (seen, [])
  check_hubs overlay i seen (h ∷ rest) =
      let step = check_hub overlay i seen h in
      let others = check_hubs overlay (i + 1) step.0 rest in (others.0, step.1 ++ others.1)

  -- one round of the loop over `spec.agents`
  unfoldable pub check_agent :
      Option Prefix → List String → ℕ → Seen Addr → Agent → Seen Addr × List Problem
  unfolding check_agent_name check_addr_in_overlay check_agent_hub check_agent_groups
  check_agent overlay groups i seen a =
      let named = check_agent_name i seen a.name in
      let addressed = check_addr_in_overlay overlay (agent_at i) a.tunnel_ip named.0 in
      (
        addressed.0,
        named.1
            ++ (addressed.1
                ++ (check_agent_hub i seen.hub_names a.hub
                    ++ check_agent_groups i 0 groups [] a.groups)),
      )

  unfoldable pub check_agents :
      Option Prefix → List String → ℕ → Seen Addr → List Agent → Seen Addr × List Problem
  unfolding check_agent
  check_agents overlay groups i seen [] = (seen, [])
  check_agents overlay groups i seen (a ∷ rest) =
      let step = check_agent overlay groups i seen a in
      let others = check_agents overlay groups (i + 1) step.0 rest in (others.0, step.1 ++ others.1)

  abbrev pub unseen : Seen Addr
  unseen = record { names = []; tunnel_ips = []; hub_names = [] }

  -- The problems in the order in which the code joins them; `nil` is the empty list.
  unfoldable pub validate : Document → List Problem
  unfolding check_envelope check_cidr check_wireguard check_groups check_hubs check_agents
      check_acls
  validate d =
      let spec = d.spec in
      let overlay = parse_prefix spec.cidr in
      let groups = check_groups 0 [] spec.groups in
      let hubs = check_hubs overlay 0 unseen spec.hubs in
      let agents = check_agents overlay groups.0 0 hubs.0 spec.agents in
      check_envelope d
      ++ (check_cidr spec.cidr
          ++ (check_wireguard spec.wireguard
              ++ (groups.1
                  ++ (hubs.1
                      ++ (agents.1
                          ++ (check_acls 0 groups.0 spec.acls
                              ++ report (no_hubs spec.hubs) Problem.no_hubs))))))
