-- ===== src/AgentCore/Reconcile.antt =====
-- internal/agentcore/agent.go: `reconcileOnce` and `reconcileLoop`. The state is the agent's token and
-- its file, the WireGuard device and the firewall's tables.
use seine.Prelude.{
  ℕ, ◌+◌, String, Bool, true, false, not, Option, none, some, List, [], ◌∷◌, map, ◌==◌,
  if◌then◌else◌,
}
use seine.Prelude.Result.{Result, ok, err}
use seine.External
use seine.External.{Net}
use seine.Api.{HeartbeatResponse}
use seine.Spec.Types.{Document}
use seine.ControlPlane.Auth.{unauthenticated}
use seine.Topology.{Self, TopologyError, peers_for}
use seine.Wg.Iface.{WgPeer, PeerConfig, ApplyError, apply_peers}
use seine.NetPolicy.Compile.{PolicyError, compile}
use seine.NetPolicy.Firewall.{IpTables, FirewallError, reconcile}
use seine.AgentCore.Config.{Config}
use seine.AgentCore.Enrolment.{CallError, AgentError, Identity, Attempt, coded, register}

pub data ReconcileError : Type 0 where
  re_register : AgentError → ReconcileError
  heartbeat : CallError → ReconcileError
  spec : ReconcileError
  compute_peers : TopologyError → ReconcileError
  apply : ApplyError → ReconcileError
  compile_acl : PolicyError → ReconcileError
  apply_acl : FirewallError → ReconcileError

-- What one cycle meets: the server's answers and the watcher's `Current`.
pub record Cycle : Type 0 where
  pub answer : Result CallError HeartbeatResponse
  pub attempt : Attempt
  pub current : Option (Document × String)

unfoldable pub is_unauthenticated : CallError → Bool
is_unauthenticated (coded unauthenticated) = true
is_unauthenticated _ = false

module _ (net : Net) (keys : External.Keys) {D : Type 0}
    (device : D → Option (List (WgPeer net keys)))
    (configure_device : List (PeerConfig net keys) → D → Bool × D) (ipt : IpTables) where
  -- `firewalled` says that the agent has a firewall: it is a hub.
  pub record Host : Type 0 where
    pub identity : Identity
    pub wireguard : D
    pub tables : ipt.State
    pub firewalled : Bool

  -- the branch of a refused heartbeat
  unfoldable pub on_heartbeat_error :
      Config → CallError → Attempt → Host → Option ReconcileError × Host
  unfolding is_unauthenticated register
  on_heartbeat_error cfg e attempt h =
      if not (is_unauthenticated e)
      then (some (heartbeat e), h)
      else if cfg.bootstrap_token == ""
      then (some (heartbeat e), h)
      else (let tried = register attempt h.identity in
          let h' = record h { identity = tried.1 } in
          elim (tried.0) [ none ↦ (none, h') | some r ↦ (some (re_register r), h') ])

  -- the last part: a hub's firewall
  unfoldable pub apply_firewall : Config → Document → Host → Option ReconcileError × Host
  unfolding reconcile compile
  apply_firewall cfg doc h = if not h.firewalled then (none, h) else elim (compile net (some doc)) [
    | err e ↦ (some (compile_acl e), h)
    | ok compiled ↦
        let done = reconcile ipt net cfg.interface_name compiled h.tables in
        let h' = record h { tables = done.1 } in
        elim (done.0) [ none ↦ (none, h') | some e ↦ (some (apply_acl e), h') ]
  ]

  -- the part after the heartbeat
  unfoldable pub apply_state :
      Config → Self net → HeartbeatResponse → Document → Host → Option ReconcileError × Host
  unfolding apply_firewall peers_for apply_peers
  apply_state cfg self resp doc h =
      elim (peers_for net keys doc self (map some resp.peers)
        doc.spec.wireguard.persistent_keepalive) [
          | err e ↦ (some (compute_peers e), h)
          | ok desired ↦
              let applied = apply_peers net keys device configure_device desired h.wireguard in
              let h' = record h { wireguard = applied.2 } in
              elim (applied.1) [ some e ↦ (some (apply e), h') | none ↦ apply_firewall cfg doc h' ]
        ]

  unfoldable pub reconcile_once : Config → Self net → Cycle → Host → Option ReconcileError × Host
  unfolding on_heartbeat_error apply_state
  reconcile_once cfg self cycle h = elim cycle.answer [
    | err e ↦ on_heartbeat_error cfg e cycle.attempt h
    | ok resp ↦ elim cycle.current [
      | none ↦ (some spec, h)
      | some (doc, commit) ↦ apply_state cfg self resp doc h
    ]
  ]

  -- The counters of `seine.reconcile.total` by result.
  pub record Totals : Type 0 where
    pub success : ℕ
    pub failure : ℕ

  abbrev pub count : Option ReconcileError → Totals → Totals
  count none t = record t { success = t.success + 1 }
  count (some e) t = record t { failure = t.failure + 1 }

  -- the loop, one cycle for each tick or spec change until the context is cancelled
  unfoldable pub loop : Config → Self net → List Cycle → Totals × Host → Totals × Host
  unfolding reconcile_once
  loop cfg self [] (t, h) = (t, h)
  loop cfg self (cycle ∷ cycles) (t, h) =
      let done = reconcile_once cfg self cycle h in loop cfg self cycles (count done.0 t, done.1)

  -- The first cycle is not counted.
  unfoldable pub reconcile_loop : Config → Self net → Cycle → List Cycle → Host → Totals × Host
  unfolding loop
  reconcile_loop cfg self first cycles h =
      loop cfg self cycles
        (record { success = 0; failure = 0 }, (reconcile_once cfg self first h).1)
