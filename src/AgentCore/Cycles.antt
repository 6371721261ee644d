-- ===== src/AgentCore/Cycles.antt =====
-- internal/agentcore/agent.go: what a cycle of `reconcileOnce` that succeeded leaves on a hub.
use seine.Prelude.{String, ◌≡◌, inl, inr, Bool, true, Option, none, some, List, map, Option-cases}
use seine.Prelude.Result.{ok, Result-cases}
use seine.External
use seine.External.{Net}
use seine.Api.{HeartbeatResponse}
use seine.Spec.Types.{Document}
use seine.Topology.{Self, peers_for}
use seine.Wg.Iface.{WgPeer, PeerConfig, apply_peers}
use seine.NetPolicy.Compile.{Compiled, compile}
use seine.NetPolicy.Firewall.{IpTables, build_rules, reconcile}
use seine.NetPolicy.Install.{Listing, installed, reconcile-installed}
use seine.AgentCore.Config.{Config}
use seine.AgentCore.Reconcile.{
  compile_acl, apply_acl, compute_peers, apply, Cycle, Host, apply_firewall, apply_state,
  reconcile_once,
}

module _ (net : Net) (keys : External.Keys) {D : Type 0}
    (device : D → Option (List (WgPeer net keys)))
    (configure_device : List (PeerConfig net keys) → D → Bool × D) (ipt : IpTables)
    (listing : Listing ipt) where
  -- The chain holds the rules of the document's policy.
  pub record Enforces (doc : Document) (tables : ipt.State) : Type 0 where
    pub policy : Compiled net
    pub compiled : compile net (some doc) ≡ ok policy
    pub chain : installed ipt listing tables ≡ build_rules net policy

  apply_firewall-Enforces :
      (cfg : Config) (doc : Document) (h : Host net keys device configure_device ipt)
      → h.firewalled ≡ true
      → (apply_firewall net keys device configure_device ipt cfg doc h).0 ≡ none
      → Enforces doc (apply_firewall net keys device configure_device ipt cfg doc h).1.tables
  unfolding apply_firewall
  apply_firewall-Enforces cfg doc h f done = elim (Result-cases (compile net (some doc))) [
    | inl (e, p) ↦
        absurd (let x : some (compile_acl e) ≡ none = rw (apply_firewall, f, p) at done in cc)
    | inr (c, p) ↦ elim (Option-cases (reconcile ipt net cfg.interface_name c h.tables).0) [
      | inr (e, q) ↦
          absurd (let x : some (apply_acl e) ≡ none = rw (apply_firewall, f, p, q) at done in cc)
      | inl q ↦
          rw (apply_firewall, f, p, q)
            (record {
              policy = c;
              compiled = p;
              chain = reconcile-installed ipt listing net cfg.interface_name c h.tables q;
            })
    ]
  ]

  apply_state-Enforces :
      (cfg : Config) (self : Self net) (resp : HeartbeatResponse) (doc : Document)
      (h : Host net keys device configure_device ipt)
      → h.firewalled ≡ true
      → (apply_state net keys device configure_device ipt cfg self resp doc h).0 ≡ none
      → Enforces doc (apply_state net keys device configure_device ipt cfg self resp doc h).1.tables
  unfolding apply_state
  apply_state-Enforces cfg self resp doc h f done =
      let derived =
        peers_for net keys doc self (map some resp.peers) doc.spec.wireguard.persistent_keepalive in
      elim (Result-cases derived) [
        | inl (e, p) ↦
            absurd (let x : some (compute_peers e) ≡ none = rw (apply_state, p) at done in cc)
        | inr (desired, p) ↦
            let applied = apply_peers net keys device configure_device desired h.wireguard in
            elim (Option-cases applied.1) [
              | inr (e, q) ↦
                  absurd (let x : some (apply e) ≡ none = rw (apply_state, p, q) at done in cc)
              | inl q ↦
                  rw (apply_state, p, q)
                    (apply_firewall-Enforces cfg doc (record h { wireguard = applied.2 }) f
                      (rw (apply_state, p, q) at done))
            ]
      ]

  -- A reconcile cycle of a hub that succeeds on an answered heartbeat leaves the firewall chain with
  -- exactly the rules that the current document compiles to.
  pub reconcile_once-Enforces :
      (cfg : Config) (self : Self net) (cycle : Cycle)
      (h : Host net keys device configure_device ipt) (resp : HeartbeatResponse) (doc : Document)
      (commit : String)
      → cycle.answer ≡ ok resp
      → cycle.current ≡ some (doc, commit)
      → h.firewalled ≡ true
      → (reconcile_once net keys device configure_device ipt cfg self cycle h).0 ≡ none
      → Enforces doc (reconcile_once net keys device configure_device ipt cfg self cycle h).1.tables
  unfolding reconcile_once
  reconcile_once-Enforces cfg self cycle h resp doc commit a b f done =
      rw (reconcile_once, a, b)
        (apply_state-Enforces cfg self resp doc h f (rw (reconcile_once, a, b) at done))
