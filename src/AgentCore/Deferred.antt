-- ===== src/AgentCore/Deferred.antt =====
-- internal/agentcore/agent.go: the deferred calls of `Run`, and what they leave.
use seine.Prelude.{◌≡◌, refl, ◌⊎◌, inl, inr, Bool, true, false, Option, List, ap}
use seine.External
use seine.External.{Net}
use seine.Wg.Iface.{WgPeer, PeerConfig}
use seine.Wg.Link.{Kernel, down, close}
use seine.NetPolicy.Firewall.{IpTables, teardown}
use seine.AgentCore.Config.{Agent}
use seine.AgentCore.Run.{
  Exit, stopped, pending, failed, forwarding, firewall, Machine, deferred, close_conn,
  close_interface, take_down,
}

-- The exits at which the interface had been brought up.
unfoldable pub was_up : Exit → Bool
was_up stopped = true
was_up (failed (forwarding e)) = true
was_up (failed firewall) = true
was_up _ = false

module _ (net : Net) (keys : External.Keys) (kernel : Kernel keys)
    (device : kernel.State → Option (List (WgPeer net keys)))
    (configure_device : List (PeerConfig net keys) → kernel.State → Bool × kernel.State)
    (ipt : IpTables) (agent : Agent) where
  abbrev pub Reached : Type 0
  Reached = Exit × Machine net keys kernel device configure_device ipt agent

  abbrev pub Start : Type 0
  Start = Machine net keys kernel device configure_device ipt agent

  -- The firewall's tables are those of the start, or what `Teardown` left.
  pub record IsUnfiltered (m : Start) (r : Reached) : Type 0 where
    pub tables :
        (r.1.host.tables ≡ m.host.tables)
        ⊎ ((t : ipt.State) × (r.1.host.tables ≡ teardown ipt agent.cfg.interface_name t))

  -- Where the interface had been brought up, the last calls on the kernel were `Down` and `Close`.
  pub record IsLowered (r : Reached) : Type 0 where
    pub lowered :
        (was_up r.0 ≡ false)
        ⊎ ((s : kernel.State) × (r.1.host.wireguard
              ≡ (close net keys kernel (down net keys kernel agent.cfg.interface_name s).1).1))

  -- The same before `Close`.
  pub record IsRemoved (r : Reached) : Type 0 where
    pub down_last :
        (was_up r.0 ≡ false)
        ⊎ ((s : kernel.State) × (r.1.host.wireguard
              ≡ (down net keys kernel agent.cfg.interface_name s).1))

  abbrev pub after_take_down : Reached → Reached
  after_take_down r =
      deferred net keys kernel device configure_device ipt agent
        (take_down net keys kernel device configure_device ipt agent) r

  abbrev pub after_close : Reached → Reached
  after_close r =
      deferred net keys kernel device configure_device ipt agent
        (close_interface net keys kernel device configure_device ipt agent) r

  abbrev pub after_hang_up : Reached → Reached
  after_hang_up r =
      deferred net keys kernel device configure_device ipt agent
        (close_conn net keys kernel device configure_device ipt agent) r

  pub take_down-IsRemoved : (r : Reached) → IsRemoved (after_take_down r)
  unfolding take_down was_up
  take_down-IsRemoved (pending, m) = record { down_last = inl refl }
  take_down-IsRemoved (stopped, m) = record { down_last = inr (m.host.wireguard, refl) }
  take_down-IsRemoved (failed e, m) = record { down_last = inr (m.host.wireguard, refl) }

  pub take_down-IsUnfiltered :
      (m : Start) (r : Reached) → IsUnfiltered m r → IsUnfiltered m (after_take_down r)
  unfolding take_down
  take_down-IsUnfiltered m (pending, n) u = record { tables = u.tables }
  take_down-IsUnfiltered m (stopped, n) u = record { tables = u.tables }
  take_down-IsUnfiltered m (failed e, n) u = record { tables = u.tables }

  pub close-IsLowered : (r : Reached) → IsRemoved r → IsLowered (after_close r)
  unfolding close_interface close was_up
  close-IsLowered (pending, m) d = record { lowered = inl refl }
  close-IsLowered (stopped, m) d = elim d.down_last [
    | inl e ↦ record { lowered = inl e }
    | inr (s, e) ↦ record { lowered = inr (s, ap (λ z. (close net keys kernel z).1) e) }
  ]
  close-IsLowered (failed x, m) d = elim d.down_last [
    | inl e ↦ record { lowered = inl e }
    | inr (s, e) ↦ record { lowered = inr (s, ap (λ z. (close net keys kernel z).1) e) }
  ]

  pub close-IsUnfiltered :
      (m : Start) (r : Reached) → IsUnfiltered m r → IsUnfiltered m (after_close r)
  unfolding close_interface
  close-IsUnfiltered m (pending, n) u = record { tables = u.tables }
  close-IsUnfiltered m (stopped, n) u = record { tables = u.tables }
  close-IsUnfiltered m (failed e, n) u = record { tables = u.tables }

  -- Both, of a part of `Run` that starts at `m`.
  pub record IsTidy (m : Start) (r : Reached) : Type 0 where
    pub unfiltered : IsUnfiltered m r
    pub lowered : IsLowered r

  pub early :
      (m n : Start) (x : Exit) → was_up x ≡ false → n.host.tables ≡ m.host.tables → IsTidy m (x, n)
  early m n x e t = record {
    unfiltered = record { tables = inl t };
    lowered = record { lowered = inl e };
  }

  -- What `run_bring_up` establishes.
  pub record IsStaged (m : Start) (r : Reached) : Type 0 where
    pub unfiltered : IsUnfiltered m r
    pub down_last : IsRemoved r

  pub staged :
      (m n : Start) (x : Exit)
      → was_up x ≡ false
      → n.host.tables ≡ m.host.tables
      → IsStaged m (x, n)
  staged m n x e t = record {
    unfiltered = record { tables = inl t };
    down_last = record { down_last = inl e };
  }

  -- What `Run` leaves: either it has not returned or the connection is closed.
  pub record IsLeft (m : Start) (r : Reached) : Type 0 where
    pub disconnected : (r.0 ≡ pending) ⊎ (r.1.connected ≡ false)
    pub tidy : IsTidy m r

  pub hang_up-IsLeft : (m : Start) (r : Reached) → IsTidy m r → IsLeft m (after_hang_up r)
  hang_up-IsLeft m (pending, n) t = record { disconnected = inl refl; tidy = t }
  hang_up-IsLeft m (stopped, n) t = record {
    disconnected = inr refl;
    tidy = record {
      unfiltered = record { tables = t.unfiltered.tables };
      lowered = record { lowered = t.lowered.lowered };
    };
  }
  hang_up-IsLeft m (failed e, n) t = record {
    disconnected = inr refl;
    tidy = record {
      unfiltered = record { tables = t.unfiltered.tables };
      lowered = record { lowered = t.lowered.lowered };
    };
  }
