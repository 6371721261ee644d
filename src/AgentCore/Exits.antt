-- ===== src/AgentCore/Exits.antt =====
-- internal/agentcore/agent.go: what `Run` leaves behind, however it returns.
use seine.Prelude.{
  ◌≡◌, refl, ◌⊎◌, inl, inr, Bool, true, false, Option, List, Bool-cases, Option-cases, ◌==◌,
}
use seine.Prelude.Result.{Result-cases}
use seine.External
use seine.External.{Net}
use seine.Topology.{Self, find_self}
use seine.Wg.Keys.{Keypair, load_or_generate}
use seine.Wg.Iface.{WgPeer, PeerConfig}
use seine.Wg.Link.{Kernel, new_platform_interface, up}
use seine.NetPolicy.Firewall.{IpTables, new_firewall}
use seine.NetPolicy.Forwarding.{ensure_ip_forwarding}
use seine.AgentCore.Config.{Agent, mode_hub}
use seine.AgentCore.Enrolment.{AgentError, Outcome, registered, waiting, aborted, load_or_register}
use seine.AgentCore.Startup.{wait_for_first_spec, mode_agrees, bring_up}
use seine.AgentCore.Spokes.{reconcile_loop-Unfiltered}
use seine.AgentCore.Run.{
  Boot, Exit, Machine, tear_down_firewall, run_loop, run_hub, run_up, run_bring_up, run_as,
  run_spec, run_connected, run, or_kept, with_wireguard,
}
use seine.AgentCore.Deferred.{
  was_up, IsUnfiltered, IsStaged, IsTidy, IsLeft, take_down-IsUnfiltered, take_down-IsRemoved,
  close-IsUnfiltered, close-IsLowered, early, staged, hang_up-IsLeft,
}

module _ (net : Net) (keys : External.Keys) (kernel : Kernel keys)
    (device : kernel.State → Option (List (WgPeer net keys)))
    (configure_device : List (PeerConfig net keys) → kernel.State → Bool × kernel.State)
    (ipt : IpTables) (agent : Agent) where
  abbrev Reached : Type 0
  Reached = Exit × Machine net keys kernel device configure_device ipt agent

  abbrev Start : Type 0
  Start = Machine net keys kernel device configure_device ipt agent

  run_loop-spoke :
      (boot : Boot keys) (self : Self net) (m : Start)
      → IsUnfiltered net keys kernel device configure_device ipt agent m
          (run_loop net keys kernel device configure_device ipt agent boot self false m)
  unfolding run_loop
  run_loop-spoke boot self m = record {
    tables =
        inl
          (reconcile_loop-Unfiltered net keys device configure_device ipt agent.cfg self boot.first
            boot.cycles (record (m.host) { firewalled = false }) refl).same;
  }

  run_hub-IsUnfiltered :
      (boot : Boot keys) (self : Self net) (m : Start)
      → IsUnfiltered net keys kernel device configure_device ipt agent m
          (run_hub net keys kernel device configure_device ipt agent boot self m)
  unfolding run_hub run_loop tear_down_firewall
  run_hub-IsUnfiltered boot self m =
      elim (Option-cases (ensure_ip_forwarding m.ip_forward boot.forwarding_writable).0) [
        | inr (e, p) ↦ rw (run_hub, p) (record { tables = inl refl })
        | inl p ↦ elim (Option-cases (new_firewall boot.iptables_ok agent.cfg.interface_name)) [
          | inl q ↦ rw (run_hub, p, q) (record { tables = inl refl })
          | inr (fw, q) ↦ rw (run_hub, p, q) (record { tables = inr (_, refl) })
        ]
      ]

  run_up-IsUnfiltered :
      (boot : Boot keys) (self : Self net) (m : Start)
      → IsUnfiltered net keys kernel device configure_device ipt agent m
          (run_up net keys kernel device configure_device ipt agent boot self m)
  unfolding run_up
  run_up-IsUnfiltered boot self m = elim (Bool-cases (agent.cfg.mode == mode_hub)) [
    | inl p ↦ rw (run_up, p) (run_hub-IsUnfiltered boot self m)
    | inr p ↦ rw (run_up, p) (run_loop-spoke boot self m)
  ]

  run_bring_up-IsStaged :
      (boot : Boot keys) (kp : Keypair keys) (self : Self net) (m : Start)
      → IsStaged net keys kernel device configure_device ipt agent m
          (run_bring_up net keys kernel device configure_device ipt agent boot kp self m)
  unfolding run_bring_up was_up
  run_bring_up-IsStaged boot kp self m = elim (Option-cases boot.current_up) [
    | inl p ↦
        rw (run_bring_up, p)
          (staged net keys kernel device configure_device ipt agent m m _ refl refl)
    | inr (doc, p) ↦ elim (Option-cases (bring_up net keys agent.cfg doc self kp.private)) [
      | inl q ↦
          rw (run_bring_up, p, q)
            (staged net keys kernel device configure_device ipt agent m m _ refl refl)
      | inr (opts, q) ↦
          let raised = up net keys kernel agent.cfg.interface_name opts m.host.wireguard in
          let m' = with_wireguard net keys kernel device configure_device ipt agent raised.1 m in
          let inner = run_up net keys kernel device configure_device ipt agent boot self m' in
          elim (Option-cases raised.0) [
            | inr (e, r) ↦
                rw (run_bring_up, p, q, r)
                  (staged net keys kernel device configure_device ipt agent m m' _ refl refl)
            | inl r ↦
                rw (run_bring_up, p, q, r)
                  (record {
                    unfiltered =
                        take_down-IsUnfiltered net keys kernel device configure_device ipt agent m
                          inner (record { tables = (run_up-IsUnfiltered boot self m').tables });
                    down_last =
                        take_down-IsRemoved net keys kernel device configure_device ipt agent inner;
                  })
          ]
    ]
  ]

  run_as-IsTidy :
      (boot : Boot keys) (kp : Keypair keys) (self : Self net) (m : Start)
      → IsTidy net keys kernel device configure_device ipt agent m
          (run_as net keys kernel device configure_device ipt agent boot kp self m)
  unfolding run_as was_up
  run_as-IsTidy boot kp self m = elim (Bool-cases (mode_agrees agent.cfg self.role)) [
    | inr p ↦
        rw (run_as, p) (early net keys kernel device configure_device ipt agent m m _ refl refl)
    | inl p ↦
        let made =
          new_platform_interface net keys kernel agent.cfg.interface_name m.host.wireguard in
        let m' = with_wireguard net keys kernel device configure_device ipt agent made.1 m in
        let inner =
          run_bring_up net keys kernel device configure_device ipt agent boot kp self m' in
        let part = run_bring_up-IsStaged boot kp self m' in
        elim (Result-cases made.0) [
          | inl (e, q) ↦
              rw (run_as, p, q)
                (early net keys kernel device configure_device ipt agent m m' _ refl refl)
          | inr (iface, q) ↦
              rw (run_as, p, q)
                (record {
                  unfiltered =
                      close-IsUnfiltered net keys kernel device configure_device ipt agent m inner
                        (record { tables = part.unfiltered.tables });
                  lowered =
                      close-IsLowered net keys kernel device configure_device ipt agent inner
                        part.down_last;
                })
        ]
  ]

  run_spec-IsTidy :
      (boot : Boot keys) (kp : Keypair keys) (m : Start)
      → IsTidy net keys kernel device configure_device ipt agent m
          (run_spec net keys kernel device configure_device ipt agent boot kp m)
  unfolding run_spec was_up
  run_spec-IsTidy boot kp m = elim (Option-cases boot.current) [
    | inl p ↦
        rw (run_spec, p) (early net keys kernel device configure_device ipt agent m m _ refl refl)
    | inr (doc, p) ↦ elim (Result-cases (find_self net doc agent.cfg.name)) [
      | inl (e, q) ↦
          rw (run_spec, p, q)
            (early net keys kernel device configure_device ipt agent m m _ refl refl)
      | inr (self, q) ↦ rw (run_spec, p, q) (run_as-IsTidy boot kp self m)
    ]
  ]

  Outcome-cases :
      (o : Outcome) → (o ≡ registered) ⊎ ((o ≡ waiting) ⊎ ((e : AgentError) × (o ≡ aborted e)))
  Outcome-cases registered = inl refl
  Outcome-cases waiting = inr (inl refl)
  Outcome-cases (aborted e) = inr (inr (e, refl))

  run_connected-IsTidy :
      (boot : Boot keys) (kp : Keypair keys) (m : Start)
      → IsTidy net keys kernel device configure_device ipt agent m
          (run_connected net keys kernel device configure_device ipt agent boot kp m)
  unfolding run_connected was_up
  run_connected-IsTidy boot kp m =
      let enrolled =
        load_or_register boot.token_file agent.cfg.bootstrap_token boot.attempts m.host.identity in
      let m' : Start = record m { host = record (m.host) { identity = enrolled.1 } } in
      elim (Outcome-cases enrolled.0) [
        | inr (inl p) ↦
            rw (run_connected, p)
              (early net keys kernel device configure_device ipt agent m m' _ refl refl)
        | inr (inr (e, p)) ↦
            rw (run_connected, p)
              (early net keys kernel device configure_device ipt agent m m' _ refl refl)
        | inl p ↦ elim (Option-cases (wait_for_first_spec boot.loaded boot.wakes)) [
          | inl q ↦
              rw (run_connected, p, q)
                (early net keys kernel device configure_device ipt agent m m' _ refl refl)
          | inr (false, q) ↦
              rw (run_connected, p, q)
                (early net keys kernel device configure_device ipt agent m m' _ refl refl)
          | inr (true, q) ↦
              let inner = run_spec-IsTidy boot kp m' in
              rw (run_connected, p, q)
                (record {
                  unfiltered = record { tables = inner.unfiltered.tables };
                  lowered = inner.lowered;
                })
        ]
      ]

  -- However `Run` returns, on an error at any step or when its context is cancelled: the connection to
  -- the server is closed; the firewall's tables are those of the start or what `Teardown` left; and if
  -- the interface had been brought up, the last calls on the kernel were `Down` and `Close`.
  pub run-IsLeft :
      (boot : Boot keys) (m : Start)
      → m.connected ≡ false
      → IsLeft net keys kernel device configure_device ipt agent m
          (run net keys kernel device configure_device ipt agent boot m)
  unfolding run was_up
  run-IsLeft boot m c = elim (Bool-cases boot.state_dir_ok) [
    | inr p ↦
        rw (run, p)
          (record {
            disconnected = inr c;
            tidy = early net keys kernel device configure_device ipt agent m m _ refl refl;
          })
    | inl p ↦
        let loaded =
          load_or_generate keys boot.key_file boot.fresh_key boot.mkdir_ok boot.write_ok in
        let m' : Start = record m {
          key_file = or_kept net keys kernel device configure_device ipt agent loaded.1 m.key_file;
        } in
        elim (Result-cases loaded.0) [
          | inl (e, q) ↦
              rw (run, p, q)
                (record {
                  disconnected = inr c;
                  tidy = early net keys kernel device configure_device ipt agent m m' _ refl refl;
                })
          | inr (kp, q) ↦ elim (Bool-cases boot.dial_ok) [
            | inr d ↦
                rw (run, p, q, d)
                  (record {
                    disconnected = inr c;
                    tidy = early net keys kernel device configure_device ipt agent m m' _ refl refl;
                  })
            | inl d ↦
                let open_m : Start = record m' { connected = true } in
                let inner = run_connected-IsTidy boot kp open_m in
                rw (run, p, q, d)
                  (hang_up-IsLeft net keys kernel device configure_device ipt agent m
                    (run_connected net keys kernel device configure_device ipt agent boot kp open_m)
                    (record {
                      unfiltered = record { tables = inner.unfiltered.tables };
                      lowered = inner.lowered;
                    }))
          ]
        ]
  ]
