-- ===== src/AgentCore/Spokes.antt =====
-- internal/agentcore/agent.go: the loop of an agent that has no firewall.
use seine.Prelude.{
  ◌≡◌, refl, ◌∙◌, inl, inr, Bool, false, Option, some, List, [], ◌∷◌, Bool-cases, Option-cases,
  ◌==◌, map,
}
use seine.Prelude.Result.{Result-cases}
use seine.External
use seine.External.{Net}
use seine.Api.{HeartbeatResponse}
use seine.Spec.Types.{Document}
use seine.Topology.{Self, peers_for}
use seine.Wg.Iface.{WgPeer, PeerConfig, apply_peers}
use seine.NetPolicy.Firewall.{IpTables}
use seine.AgentCore.Config.{Config}
use seine.AgentCore.Enrolment.{CallError, Attempt, register}
use seine.AgentCore.Reconcile.{
  Cycle, Host, Totals, is_unauthenticated, on_heartbeat_error, apply_firewall, apply_state,
  reconcile_once, count, loop, reconcile_loop,
}

module _ (net : Net) (keys : External.Keys) {D : Type 0}
    (device : D → Option (List (WgPeer net keys)))
    (configure_device : List (PeerConfig net keys) → D → Bool × D) (ipt : IpTables) where
  abbrev Machine : Type 0
  Machine = Host net keys device configure_device ipt

  -- The second has no firewall, and the tables of the first.
  pub record Unfiltered (h h' : Host net keys device configure_device ipt) : Type 0 where
    pub still : h'.firewalled ≡ false
    pub same : h'.tables ≡ h.tables

  on_heartbeat_error-Unfiltered :
      (cfg : Config) (e : CallError) (attempt : Attempt) (h : Machine)
      → h.firewalled ≡ false
      → Unfiltered h (on_heartbeat_error net keys device configure_device ipt cfg e attempt h).1
  unfolding on_heartbeat_error
  on_heartbeat_error-Unfiltered cfg e attempt h f = elim (Bool-cases (is_unauthenticated e)) [
    | inr a ↦ rw (on_heartbeat_error, a) (record { still = f; same = refl })
    | inl a ↦ elim (Bool-cases (cfg.bootstrap_token == "")) [
      | inl b ↦ rw (on_heartbeat_error, a, b) (record { still = f; same = refl })
      | inr b ↦ elim (Option-cases (register attempt h.identity).0) [
        | inl c ↦ rw (on_heartbeat_error, a, b, c) (record { still = f; same = refl })
        | inr (r, c) ↦ rw (on_heartbeat_error, a, b, c) (record { still = f; same = refl })
      ]
    ]
  ]

  apply_state-Unfiltered :
      (cfg : Config) (self : Self net) (resp : HeartbeatResponse) (doc : Document) (h : Machine)
      → h.firewalled ≡ false
      → Unfiltered h (apply_state net keys device configure_device ipt cfg self resp doc h).1
  unfolding apply_state apply_firewall
  apply_state-Unfiltered cfg self resp doc h f =
      let derived =
        peers_for net keys doc self (map some resp.peers) doc.spec.wireguard.persistent_keepalive in
      elim (Result-cases derived) [
        | inl (e, p) ↦ rw (apply_state, p) (record { still = f; same = refl })
        | inr (desired, p) ↦
            elim (Option-cases
              (apply_peers net keys device configure_device desired h.wireguard).1) [
                | inr (e, q) ↦ rw (apply_state, p, q) (record { still = f; same = refl })
                | inl q ↦
                    rw (apply_state, p, q, apply_firewall, f) (record { still = refl; same = refl })
              ]
      ]

  reconcile_once-Unfiltered :
      (cfg : Config) (self : Self net) (cycle : Cycle) (h : Machine)
      → h.firewalled ≡ false
      → Unfiltered h (reconcile_once net keys device configure_device ipt cfg self cycle h).1
  unfolding reconcile_once
  reconcile_once-Unfiltered cfg self cycle h f = elim (Result-cases cycle.answer) [
    | inl (e, p) ↦ rw (reconcile_once, p) (on_heartbeat_error-Unfiltered cfg e cycle.attempt h f)
    | inr (resp, p) ↦ elim (Option-cases cycle.current) [
      | inl q ↦ rw (reconcile_once, p, q) (record { still = f; same = refl })
      | inr ((doc, commit), q) ↦
          rw (reconcile_once, p, q) (apply_state-Unfiltered cfg self resp doc h f)
    ]
  ]

  loop-Unfiltered :
      (cfg : Config) (self : Self net) (cycles : List Cycle)
      (t : Totals net keys device configure_device ipt) (h : Machine)
      → h.firewalled ≡ false
      → Unfiltered h (loop net keys device configure_device ipt cfg self cycles (t, h)).1
  unfolding loop
  loop-Unfiltered cfg self [] t h f = record { still = f; same = refl }
  loop-Unfiltered cfg self (cycle ∷ cycles) t h f =
      let done = reconcile_once net keys device configure_device ipt cfg self cycle h in
      let step = reconcile_once-Unfiltered cfg self cycle h f in
      let rest =
        loop-Unfiltered cfg self cycles (count net keys device configure_device ipt done.0 t) done.1
          step.still in
      record { still = rest.still; same = rest.same ∙ step.same }

  pub reconcile_loop-Unfiltered :
      (cfg : Config) (self : Self net) (first : Cycle) (cycles : List Cycle) (h : Machine)
      → h.firewalled ≡ false
      → Unfiltered h (reconcile_loop net keys device configure_device ipt cfg self first cycles h).1
  unfolding reconcile_loop
  reconcile_loop-Unfiltered cfg self first cycles h f =
      let step = reconcile_once-Unfiltered cfg self first h f in
      let start : Totals net keys device configure_device ipt = record {
        success = 0;
        failure = 0;
      } in
      let rest =
        loop-Unfiltered cfg self cycles start
          (reconcile_once net keys device configure_device ipt cfg self first h).1 step.still in
      record { still = rest.still; same = rest.same ∙ step.same }
