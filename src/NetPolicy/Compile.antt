-- ===== src/NetPolicy/Compile.antt =====
-- internal/netpolicy/netpolicy.go: group rules become rules on pairs of addresses.
use seine.Prelude.{
  String, Bool, true, false, Option, none, some, List, [], ◌∷◌, ◌++◌, ◌==◌, string_eq,
  if◌then◌else◌, lookup, member, each, pair_eq, not,
}
use seine.Prelude.Result.{Result, ok, err, ◌>>=◌, or_error}
use seine.Prelude.Sort.{sort_slice}
use seine.External.{Net}
use seine.Spec.Types
use seine.Spec.Types.{Document, Hub, Agent, Acl}

pub record Rule (net : Net) : Type 0 where
  pub source : net.Addr
  pub dest : net.Addr
  pub allow : Bool

pub record Compiled (net : Net) : Type 0 where
  pub allows : List (Rule net)
  pub denies : List (Rule net)
  pub hub_ips : List net.Addr
  pub overlay : net.Prefix

pub data PolicyError : Type 0 where
  nil_document overlay_cidr : PolicyError
  agent_tunnel_ip hub_tunnel_ip : String → PolicyError

-- The sets `seenAllow` and `seenDeny` and the slices `allows` and `denies`.
pub record Expansion (net : Net) : Type 0 where
  pub seen_allow : List (net.Addr × net.Addr)
  pub seen_deny : List (net.Addr × net.Addr)
  pub allows : List (Rule net)
  pub denies : List (Rule net)

module _ (net : Net) where
  open net use {Addr, addr_eq, parse_addr, less, Prefix, parse_prefix}

  abbrev pub Members : Type 0
  Members = List (String × List Addr)

  -- `groupMembers[g]`, empty where the key is missing
  abbrev pub members : Members → String → List Addr
  members m g = elim (lookup string_eq g m) [ none ↦ [] | some ips ↦ ips ]

  -- `groupMembers[g] = append(groupMembers[g], ip)` for each group of an agent
  unfoldable pub join_groups : Addr → Members → List String → Members
  join_groups ip m [] = m
  join_groups ip m (g ∷ rest) = join_groups ip ((g, members m g ++ ip ∷ []) ∷ m) rest

  -- the loop over `doc.Spec.Agents`
  unfoldable pub group_members : Members → List Agent → Result PolicyError Members
  unfolding join_groups
  group_members m [] = ok m
  group_members m (a ∷ rest) = or_error (parse_addr a.tunnel_ip) (agent_tunnel_ip a.name) >>= λ ip.
      group_members (join_groups ip m a.groups) rest

  -- the innermost loop body
  unfoldable pub add_pair : Bool → Addr → Expansion net → Addr → Expansion net
  add_pair is_allow src x dst =
      if addr_eq.beq src dst
      then x
      else if is_allow
      then (if member (pair_eq addr_eq addr_eq) (src, dst) x.seen_allow then x else record x {
        seen_allow = (src, dst) ∷ x.seen_allow;
        allows = x.allows ++ record { source = src; dest = dst; allow = true } ∷ [];
      })
      else if member (pair_eq addr_eq addr_eq) (src, dst) x.seen_deny
      then x
      else record x {
        seen_deny = (src, dst) ∷ x.seen_deny;
        denies = x.denies ++ record { source = src; dest = dst; allow = false } ∷ [];
      }

  -- the four loops of one rule, from the inside out
  unfoldable pub add_dests : Bool → List Addr → Expansion net → Addr → Expansion net
  unfolding add_pair
  add_dests is_allow dests x src = each (add_pair is_allow src) x dests

  unfoldable pub add_sources : Bool → Members → List Addr → Expansion net → String → Expansion net
  unfolding add_dests
  add_sources is_allow m sources x to_g = each (add_dests is_allow (members m to_g)) x sources

  unfoldable pub add_groups : Bool → Members → List String → Expansion net → String → Expansion net
  unfolding add_sources
  add_groups is_allow m to x from_g = each (add_sources is_allow m (members m from_g)) x to

  unfoldable pub add_rule : Members → Expansion net → Acl → Expansion net
  unfolding add_groups
  add_rule m x r = each (add_groups (r.action == Types.action_allow) m r.to) x r.from

  abbrev pub nothing : Expansion net
  nothing = record { seen_allow = []; seen_deny = []; allows = []; denies = [] }

  unfoldable pub expand : Members → List Acl → Expansion net
  unfolding add_rule
  expand m acls = each (add_rule m) nothing acls

  abbrev pub rule_less : Rule net → Rule net → Bool
  rule_less a b =
      if not (addr_eq.beq a.source b.source) then less a.source b.source else less a.dest b.dest

  unfoldable pub sort_rules : List (Rule net) → List (Rule net)
  unfolding sort_slice
  sort_rules rs = sort_slice rule_less rs

  -- the loop over `doc.Spec.Hubs`
  unfoldable pub hub_addrs : List Hub → Result PolicyError (List Addr)
  hub_addrs [] = ok []
  hub_addrs (h ∷ rest) = or_error (parse_addr h.tunnel_ip) (hub_tunnel_ip h.name) >>= λ ip.
      hub_addrs rest >>= λ ips. ok (ip ∷ ips)

  unfoldable pub compile : Option Document → Result PolicyError (Compiled net)
  unfolding group_members expand sort_rules hub_addrs sort_slice
  compile none = err nil_document
  compile (some doc) = or_error (parse_prefix doc.spec.cidr) overlay_cidr >>= λ overlay.
      group_members [] doc.spec.agents >>= λ m. hub_addrs doc.spec.hubs >>= λ hubs.
      let x = expand m doc.spec.acls in
      ok (record {
        allows = sort_rules x.allows;
        denies = sort_rules x.denies;
        hub_ips = sort_slice less hubs;
        overlay = overlay;
      })
