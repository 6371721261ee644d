-- ===== src/AgentCore/Converged.antt =====
-- internal/agentcore/agent.go: what a cycle of `reconcileOnce` that succeeded leaves on the device.
use seine.Prelude.{
  String, ◌≡◌, refl, ◌∙◌, ap, ◌↔◌, inl, inr, Bool, Option, none, some, List, map, In, Bool-cases,
  Option-cases,
}
use seine.Prelude.Result.{ok, Result-cases}
use seine.External
use seine.External.{Net}
use seine.Api.{HeartbeatResponse}
use seine.Spec.Types.{Document}
use seine.Topology.{Self, peers_for}
use seine.Wg.Types.{Peer}
use seine.Wg.Changes.{peer_key}
use seine.Wg.Applied.{DeviceLaws, wg_key, apply_peers-keys}
use seine.Wg.Iface.{WgPeer, PeerConfig, apply_peers}
use seine.NetPolicy.Compile.{compile}
use seine.NetPolicy.Firewall.{IpTables, reconcile}
use seine.AgentCore.Config.{Config}
use seine.AgentCore.Reconcile.{
  compute_peers, apply, Cycle, Host, apply_firewall, apply_state, reconcile_once,
}

module _ (net : Net) (keys : External.Keys) {D : Type 0}
    (device : D → Option (List (WgPeer net keys)))
    (configure_device : List (PeerConfig net keys) → D → Bool × D) (ipt : IpTables)
    (laws : DeviceLaws net keys device configure_device) where
  -- The device has peers under exactly the keys of those that the document and the registry give.
  pub record IsConverged (doc : Document) (self : Self net) (resp : HeartbeatResponse) (d : D)
      : Type 0 where
    pub desired : List (Peer net keys)
    pub derived :
        peers_for net keys doc self (map some resp.peers) doc.spec.wireguard.persistent_keepalive
        ≡ ok desired
    pub peers : List (WgPeer net keys)
    pub there : device d ≡ some peers
    pub exact :
        (k : keys.Key) → In k (map (wg_key net keys) peers) ↔ In k (map (peer_key net keys) desired)

  apply_firewall-wireguard :
      (cfg : Config) (doc : Document) (h : Host net keys device configure_device ipt)
      → (apply_firewall net keys device configure_device ipt cfg doc h).1.wireguard ≡ h.wireguard
  unfolding apply_firewall
  apply_firewall-wireguard cfg doc h = elim (Bool-cases h.firewalled) [
    | inr f ↦ rw (apply_firewall, f) refl
    | inl f ↦ elim (Result-cases (compile net (some doc))) [
      | inl (e, p) ↦ rw (apply_firewall, f, p) refl
      | inr (c, p) ↦ elim (Option-cases (reconcile ipt net cfg.interface_name c h.tables).0) [
        | inl q ↦ rw (apply_firewall, f, p, q) refl
        | inr (e, q) ↦ rw (apply_firewall, f, p, q) refl
      ]
    ]
  ]

  apply_state-IsConverged :
      (cfg : Config) (self : Self net) (resp : HeartbeatResponse) (doc : Document)
      (h : Host net keys device configure_device ipt)
      → (apply_state net keys device configure_device ipt cfg self resp doc h).0 ≡ none
      → IsConverged doc self resp
          (apply_state net keys device configure_device ipt cfg self resp doc h).1.wireguard
  unfolding apply_state
  apply_state-IsConverged cfg self resp doc h done =
      let derived =
        peers_for net keys doc self (map some resp.peers) doc.spec.wireguard.persistent_keepalive in
      elim (Result-cases derived) [
        | inl (e, p) ↦
            absurd (let x : some (compute_peers e) ≡ none = rw (apply_state, p) at done in cc)
        | inr (desired, p) ↦
            let applied = apply_peers net keys device configure_device desired h.wireguard in
            elim (Option-cases applied.1) [
              | inr (e, q) ↦
                  absurd (let x : some (apply e) ≡ none = rw (apply_state, p, q) at done in cc)
              | inl q ↦
                  let whole : applied ≡ (applied.0, none, applied.2) =
                    λ i. (applied.0, q i, applied.2) in
                  let (peers, there, exact) =
                    apply_peers-keys net keys device configure_device laws desired h.wireguard
                      applied.2 applied.0 whole in
                  rw (apply_state, p, q)
                    (record {
                      desired = desired;
                      derived = p;
                      peers = peers;
                      there =
                          ap device
                            (apply_firewall-wireguard cfg doc (record h { wireguard = applied.2 }))
                          ∙ there;
                      exact = exact;
                    })
            ]
      ]

  -- A reconcile cycle that succeeds on an answered heartbeat leaves the device with peers under exactly
  -- the keys that the topology derives from the current document and the server's registry.
  pub reconcile_once-IsConverged :
      (cfg : Config) (self : Self net) (cycle : Cycle)
      (h : Host net keys device configure_device ipt) (resp : HeartbeatResponse) (doc : Document)
      (commit : String)
      → cycle.answer ≡ ok resp
      → cycle.current ≡ some (doc, commit)
      → (reconcile_once net keys device configure_device ipt cfg self cycle h).0 ≡ none
      → IsConverged doc self resp
          (reconcile_once net keys device configure_device ipt cfg self cycle h).1.wireguard
  unfolding reconcile_once
  reconcile_once-IsConverged cfg self cycle h resp doc commit a c done =
      rw (reconcile_once, a, c)
        (apply_state-IsConverged cfg self resp doc h (rw (reconcile_once, a, c) at done))
