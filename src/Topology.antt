-- ===== src/Topology.antt =====
-- internal/topology/topology.go: an agent's identity and its desired WireGuard peers.
pub mod Spokes
pub mod Hubs
pub mod Peers
pub mod Entries
pub mod Routed
pub mod Disjoint
use seine.Prelude.{
  String, Bool, ◌||◌, Option, none, some, List, [], ◌∷◌, ◌++◌, ◌==◌, string_eq, if◌then◌else◌,
  lookup,
}
use seine.Prelude.Int.{ℤ, pos}
use seine.Prelude.Result.{Result, ok, err, ◌>>=◌, or_error, wrap}
use seine.External
use seine.External.{Net}
use seine.Api.{Role, role_unspecified, role_spoke, role_hub, PeerInfo}
use seine.Spec.Types.{Document, Hub, Agent, Duration}
use seine.Spec.Lookup.{find_hub, find_agent, agents_for_hub}
use seine.Wg.Types.{UdpAddr, Peer}

pub record Self (net : Net) : Type 0 where
  pub name : String
  pub role : Role
  pub tunnel_ip : net.Addr
  pub hub_name : String

-- The errors of `net.SplitHostPort`, `strconv.Atoi`, the resolver, and of an empty answer.
pub data ResolveError : Type 0 where
  split atoi lookup_ip no_ips : ResolveError

pub data TopologyError : Type 0 where
  hub_tunnel_ip agent_tunnel_ip not_declared overlay_cidr unsupported_role : TopologyError
  hub_not_registered no_endpoint : String → TopologyError
  public_key : String → TopologyError
  endpoint : String → ResolveError → TopologyError
  address : String → TopologyError

-- `p == nil || p.Name == "" || p.PublicKey == ""`
abbrev skipped : PeerInfo → Bool
skipped p = p.name == "" || p.public_key == ""

-- The map `byName`: a later entry of the registry overwrites.
unfoldable pub by_name :
    List (String × PeerInfo) → List (Option PeerInfo) → List (String × PeerInfo)
by_name acc [] = acc
by_name acc (none ∷ rest) = by_name acc rest
by_name acc (some p ∷ rest) = by_name (if skipped p then acc else (p.name, p) ∷ acc) rest

module _ (net : Net) where
  open net use {
    Addr, parse_addr, Prefix, parse_prefix, prefix_from, bit_len, split_host_port, parse_ip, Ip,
  }

  unfoldable pub find_self : Document → String → Result TopologyError (Self net)
  find_self doc name = elim (find_hub doc name) [
    | some h ↦ elim (parse_addr h.tunnel_ip) [
      | none ↦ err hub_tunnel_ip
      | some addr ↦ ok (record { name = name; role = role_hub; tunnel_ip = addr; hub_name = "" })
    ]
    | none ↦ elim (find_agent doc name) [
      | some a ↦ elim (parse_addr a.tunnel_ip) [
        | none ↦ err agent_tunnel_ip
        | some addr ↦
            ok (record { name = name; role = role_spoke; tunnel_ip = addr; hub_name = a.hub })
      ]
      | none ↦ err not_declared
    ]
  ]

  unfoldable pub single_host_prefix : String → Result TopologyError Prefix
  single_host_prefix addr = elim (parse_addr addr) [
    | none ↦ err (address addr)
    | some a ↦ ok (prefix_from a (bit_len a))
  ]

  abbrev first_ip : List Ip → ℤ → Result ResolveError (Option (UdpAddr net))
  first_ip [] port = err no_ips
  first_ip (ip ∷ ips) port = ok (some (record { ip = ip; port = port; zone = "" }))

  unfoldable pub resolve_endpoint : String → Result ResolveError (Option (UdpAddr net))
  resolve_endpoint ep = if ep == "" then ok none else elim (split_host_port ep) [
    | none ↦ err split
    | some (host, port_str) ↦ elim (net.atoi port_str) [
      | none ↦ err atoi
      | some port ↦ elim (parse_ip host) [
        | some ip ↦ ok (some (record { ip = ip; port = port; zone = "" }))
        | none ↦ elim (net.lookup_ip host) [ none ↦ err lookup_ip | some ips ↦ first_ip ips port ]
      ]
    ]
  ]

  -- the loop over the spokes of `other`
  unfoldable pub host_prefixes : List Agent → Result TopologyError (List Prefix)
  unfolding single_host_prefix
  host_prefixes [] = ok []
  host_prefixes (s ∷ rest) =
      single_host_prefix s.tunnel_ip >>= λ p. host_prefixes rest >>= λ ps. ok (p ∷ ps)

  unfoldable pub hub_mesh_allowed_ips : Document → Hub → Result TopologyError (List Prefix)
  unfolding single_host_prefix host_prefixes agents_for_hub
  hub_mesh_allowed_ips doc other = single_host_prefix other.tunnel_ip >>= λ other_ip.
      host_prefixes (agents_for_hub doc other.name) >>= λ allowed. ok (other_ip ∷ allowed)

module _ (net : Net) (keys : External.Keys) where
  open net use {Prefix, parse_prefix}
  open keys use {parse_key}

  unfoldable pub spoke_peers :
      Self net
      → List (String × PeerInfo)
      → Prefix
      → Duration
      → Result TopologyError (List (Peer net keys))
  unfolding resolve_endpoint
  spoke_peers self registry overlay keepalive = elim (lookup string_eq self.hub_name registry) [
    | none ↦ err (hub_not_registered self.hub_name)
    | some hub ↦ or_error (parse_key hub.public_key) (public_key self.hub_name) >>= λ pub_key.
        wrap (endpoint self.hub_name) (resolve_endpoint net hub.endpoint) >>= λ resolved.
        or_error resolved (no_endpoint self.hub_name) >>= λ dialled. ok (
          record {
            name = hub.name;
            public_key = pub_key;
            endpoint = some dialled;
            allowed_ips = overlay ∷ [];
            persistent_keepalive = keepalive;
          }
          ∷ [])
  ]

  -- the peer for another hub of the mesh that has registered
  unfoldable pub mesh_peer :
      Document → PeerInfo → Duration → Hub → Result TopologyError (Peer net keys)
  unfolding resolve_endpoint hub_mesh_allowed_ips
  mesh_peer doc info keepalive h =
      or_error (parse_key info.public_key) (public_key h.name) >>= λ pub_key.
      wrap (endpoint h.name) (resolve_endpoint net info.endpoint) >>= λ resolved.
      or_error resolved (no_endpoint h.name) >>= λ dialled.
      hub_mesh_allowed_ips net doc h >>= λ allowed. ok (record {
        name = h.name;
        public_key = pub_key;
        endpoint = some dialled;
        allowed_ips = allowed;
        persistent_keepalive = keepalive;
      })

  -- the loop over `doc.Spec.Hubs`
  unfoldable pub mesh_peers :
      Document
      → String
      → List (String × PeerInfo)
      → Duration
      → List Hub
      → Result TopologyError (List (Peer net keys))
  unfolding mesh_peer
  mesh_peers doc self registry keepalive [] = ok []
  mesh_peers doc self registry keepalive (h ∷ rest) =
      let others = mesh_peers doc self registry keepalive rest in
      if h.name == self then others else elim (lookup string_eq h.name registry) [
        | none ↦ others
        | some info ↦ mesh_peer doc info keepalive h >>= λ p. others >>= λ ps. ok (p ∷ ps)
      ]

  -- the peer for a spoke that has registered
  unfoldable pub anchored_peer : PeerInfo → Agent → Result TopologyError (Peer net keys)
  unfolding single_host_prefix
  anchored_peer info a = or_error (parse_key info.public_key) (public_key a.name) >>= λ pub_key.
      single_host_prefix net a.tunnel_ip >>= λ spoke_ip. ok (record {
        name = a.name;
        public_key = pub_key;
        endpoint = none;
        allowed_ips = spoke_ip ∷ [];
        persistent_keepalive = pos 0;
      })

  -- the loop over the hub's own spokes
  unfoldable pub anchored_peers :
      List (String × PeerInfo) → List Agent → Result TopologyError (List (Peer net keys))
  unfolding anchored_peer
  anchored_peers registry [] = ok []
  anchored_peers registry (a ∷ rest) =
      let others = anchored_peers registry rest in
      elim (lookup string_eq a.name registry) [
        | none ↦ others
        | some info ↦ anchored_peer info a >>= λ p. others >>= λ ps. ok (p ∷ ps)
      ]

  unfoldable pub hub_peers :
      Document
      → Self net
      → List (String × PeerInfo)
      → Duration
      → Result TopologyError (List (Peer net keys))
  unfolding mesh_peers anchored_peers agents_for_hub
  hub_peers doc self registry keepalive =
      mesh_peers doc self.name registry keepalive doc.spec.hubs >>= λ mesh.
      anchored_peers registry (agents_for_hub doc self.name) >>= λ spokes. ok (mesh ++ spokes)

  abbrev by_role :
      Document
      → Self net
      → List (String × PeerInfo)
      → Prefix
      → Duration
      → Role
      → Result TopologyError (List (Peer net keys))
  by_role doc self registry overlay keepalive role_spoke =
      spoke_peers self registry overlay keepalive
  by_role doc self registry overlay keepalive role_hub = hub_peers doc self registry keepalive
  by_role doc self registry overlay keepalive role_unspecified = err unsupported_role

  unfoldable pub peers_for :
      Document
      → Self net
      → List (Option PeerInfo)
      → Duration
      → Result TopologyError (List (Peer net keys))
  unfolding by_name spoke_peers hub_peers
  peers_for doc self registry keepalive =
      or_error (parse_prefix doc.spec.cidr) overlay_cidr >>= λ overlay.
      by_role doc self (by_name [] registry) overlay keepalive self.role
