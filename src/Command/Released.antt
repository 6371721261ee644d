-- ===== src/Command/Released.antt =====
-- cmd/seine-agent/main.go: what the program leaves behind, however it ends.
use seine.Prelude.{
  String, ◌≡◌, refl, sym, ◌∙◌, ◌⊎◌, inl, inr, Bool, true, false, Option, List, ap, Bool-cases,
  Option-cases,
}
use seine.Prelude.Result.{ok, err, Result-cases}
use seine.External
use seine.External.{Net}
use seine.Spec.Types.{Duration}
use seine.Spec.Parse.{Decoded}
use seine.Otel.{Sdk, ShutdownFunc, setup}
use seine.Otel.Drained.{SdkLaws, drained, setup-drained, setup-refused}
use seine.GitSource
use seine.GitSource.{OpenError}
use seine.GitSource.Transport.{Client}
use seine.SpecSource
use seine.SpecSource.Follow.{Tracker, new, close_source}
use seine.Wg.Iface.{WgPeer, PeerConfig}
use seine.Wg.Link.{Kernel}
use seine.NetPolicy.Firewall.{IpTables}
use seine.Command.Options.{Environment}
use seine.Command.Agent.{
  Options, parse_flags, check_options, otel_config, source_config, watcher_config,
}
use seine.Command.AgentRun.{
  Ended, World, Life, printed_version, finished, running, exit_error, at_return, drain,
  close_watcher, run_core, run_watched, run_traced, run, watch,
}

module _ (parse_duration : String → Option Duration) (join : String → String → String)
    (version : String) (sdk : Sdk) (laws : SdkLaws sdk) (git : Client) (net : Net)
    (decode : String → Decoded) (keys : External.Keys) (kernel : Kernel keys)
    (device : kernel.State → Option (List (WgPeer net keys)))
    (configure_device : List (PeerConfig net keys) → kernel.State → Bool × kernel.State)
    (ipt : IpTables) where
  open laws use {live}

  abbrev pub W : Type 0
  W = World parse_duration join version sdk git net decode keys kernel device configure_device ipt

  abbrev L : Type 0
  L = Life parse_duration join version sdk git net decode keys kernel device configure_device ipt

  -- No Git source was opened; or the program still runs; or `Close` was called on the watcher that was
  -- opened, and nothing came after it on the files but what its goroutine still did.
  pub record IsClosed (life : L) (w : W) (r : Ended × W) : Type 0 where
    pub files :
        ((r.1.files ≡ w.files)
          ⊎ ((cfg : SpecSource.Config) × (source : GitSource.Config) × (e : OpenError) × ((new git
                  cfg source w.files).0
                ≡ err e)
              × (r.1.files ≡ (new git cfg source w.files).1)))
        ⊎ ((r.0 ≡ running)
            ⊎ ((cfg : SpecSource.Config) × (source : GitSource.Config) × (t : Tracker)
                × (s : git.State) × ((new git cfg source w.files).0 ≡ ok t)
                × (r.1.files ≡ life.beside (close_source git t s).2)))
    pub source : (r.0 ≡ running) ⊎ (r.1.source_open ≡ w.source_open)

  -- Nothing is left: a telemetry provider `q` runs if and only if it ran before.
  pub record IsReleased (q : sdk.Provider) (life : L) (w : W) (r : Ended × W) : Type 0 where
    pub telemetry : (r.0 ≡ running) ⊎ (live q r.1.telemetry ≡ live q w.telemetry)
    pub closed : IsClosed life w r

  untouched : (q : sdk.Provider) (life : L) (w : W) (x : Ended) → IsReleased q life w (x, w)
  untouched q life w x = record {
    telemetry = inr refl;
    closed = record { files = inl (inl refl); source = inr refl };
  }

  abbrev after_close : L → Tracker → Ended × W → Ended × W
  after_close life t r =
      at_return parse_duration join version sdk git net decode keys kernel device configure_device
        ipt
        (close_watcher parse_duration join version sdk git net decode keys kernel device
          configure_device ipt life t)
        r

  abbrev after_drain : ShutdownFunc sdk → Ended × W → Ended × W
  after_drain f r =
      at_return parse_duration join version sdk git net decode keys kernel device configure_device
        ipt
        (drain parse_duration join version sdk git net decode keys kernel device configure_device
          ipt f)
        r

  after_close-IsClosed :
      (life : L) (cfg : SpecSource.Config) (source : GitSource.Config) (w : W) (t : Tracker)
      (r : Ended × W)
      → w.source_open ≡ false
      → (new git cfg source w.files).0 ≡ ok t
      → IsClosed life w (after_close life t r)
  unfolding close_watcher
  after_close-IsClosed life cfg source w t (running, w') c o = record {
    files = inr (inl refl);
    source = inl refl;
  }
  after_close-IsClosed life cfg source w t (finished, w') c o = record {
    files = inr (inr (cfg, source, t, w'.files, o, refl));
    source = inr (sym c);
  }
  after_close-IsClosed life cfg source w t (printed_version, w') c o = record {
    files = inr (inr (cfg, source, t, w'.files, o, refl));
    source = inr (sym c);
  }
  after_close-IsClosed life cfg source w t (exit_error e, w') c o = record {
    files = inr (inr (cfg, source, t, w'.files, o, refl));
    source = inr (sym c);
  }

  after_close-telemetry :
      (life : L) (t : Tracker) (r : Ended × W) → (after_close life t r).1.telemetry ≡ r.1.telemetry
  unfolding close_watcher
  after_close-telemetry life t (running, w') = refl
  after_close-telemetry life t (finished, w') = refl
  after_close-telemetry life t (printed_version, w') = refl
  after_close-telemetry life t (exit_error e, w') = refl

  -- What the part with the Git source establishes: it does not touch the telemetry.
  record IsWatched (life : L) (w : W) (r : Ended × W) : Type 0 where
    telemetry : r.1.telemetry ≡ w.telemetry
    closed : IsClosed life w r

  run_watched-IsWatched :
      (life : L) (o : Options) (w : W)
      → w.source_open ≡ false
      → IsWatched life w (
          run_watched parse_duration join version sdk git net decode keys kernel device
            configure_device ipt life o w)
  unfolding run_watched
  run_watched-IsWatched life o w c =
      let made = new git (watcher_config o) (source_config o) w.files in
      elim (Result-cases made.0) [
        | inl (e, p) ↦
            rw (run_watched, p)
              (record {
                telemetry = refl;
                closed = record {
                  files = inl (inr (watcher_config o, source_config o, e, p, refl));
                  source = inr refl;
                };
              })
        | inr (tracker, p) ↦
            let watched =
              watch parse_duration join version sdk git net decode keys kernel device
                configure_device ipt life.pulls tracker made.1 in
            let core =
              run_core parse_duration join version sdk git net decode keys kernel device
                configure_device ipt life o in
            let w'' : W = record w { files = life.overtaken watched.1; source_open = true } in
            rw (run_watched, p)
              (record {
                telemetry = after_close-telemetry life tracker (core, w'');
                closed =
                    after_close-IsClosed life (watcher_config o) (source_config o) w tracker
                      (core, w'') c p;
              })
      ]

  after_drain-IsReleased :
      (q : sdk.Provider) (life : L) (w : W) (s : sdk.State) (f : ShutdownFunc sdk) (r : Ended × W)
      → live q (f s).1 ≡ live q w.telemetry
      → r.1.telemetry ≡ s
      → IsClosed life w r
      → IsReleased q life w (after_drain f r)
  after_drain-IsReleased q life w s f (running, w') stops t c = record {
    telemetry = inl refl;
    closed = c;
  }
  after_drain-IsReleased q life w s f (finished, w') stops t c = record {
    telemetry = inr (ap (λ z. live q (f z).1) t ∙ stops);
    closed = record { files = c.files; source = c.source };
  }
  after_drain-IsReleased q life w s f (printed_version, w') stops t c = record {
    telemetry = inr (ap (λ z. live q (f z).1) t ∙ stops);
    closed = record { files = c.files; source = c.source };
  }
  after_drain-IsReleased q life w s f (exit_error e, w') stops t c = record {
    telemetry = inr (ap (λ z. live q (f z).1) t ∙ stops);
    closed = record { files = c.files; source = c.source };
  }

  run_traced-IsReleased :
      (q : sdk.Provider) (life : L) (o : Options) (w : W)
      → w.source_open ≡ false
      → IsReleased q life w (
          run_traced parse_duration join version sdk git net decode keys kernel device
            configure_device ipt life o w)
  unfolding run_traced drained
  run_traced-IsReleased q life o w c =
      let cfg = otel_config version o in
      let set_up = setup sdk cfg w.telemetry in
      let stops = setup-drained sdk laws q cfg w.telemetry in
      let w' : W = record w { telemetry = set_up.2 } in
      elim (Option-cases set_up.1) [
        | inr (e, p) ↦
            let same = setup-refused sdk laws cfg w.telemetry e p in
            rw (run_traced, p)
              (record {
                telemetry = inr (rw same at stops);
                closed = record { files = inl (inl refl); source = inr refl };
              })
        | inl p ↦
            let watched = run_watched-IsWatched life o w' c in
            rw (run_traced, p)
              (after_drain-IsReleased q life w set_up.2 set_up.0
                (run_watched parse_duration join version sdk git net decode keys kernel device
                  configure_device ipt life o w')
                stops watched.telemetry
                (record { files = watched.closed.files; source = watched.closed.source }))
      ]

  -- Where no watcher is open at the start, and however the agent's program ends - a refused command
  -- line or option, a failure of the telemetry, the Git source or the agent, or a stop - no
  -- telemetry provider runs that did not run before and none was stopped that did, and no watcher
  -- is left open: on the one that was opened `Close` was called, after which only its own
  -- goroutine, which nobody waits for, may still have used the files.
  pub run-IsReleased :
      (q : sdk.Provider) (env : Environment) (args : List String) (life : L) (w : W)
      → w.source_open ≡ false
      → IsReleased q life w (
          run parse_duration join version sdk git net decode keys kernel device configure_device ipt
            env args life w)
  unfolding run
  run-IsReleased q env args life w h = elim (Result-cases (parse_flags parse_duration env args)) [
    | inl (e, p) ↦ rw (run, p) (untouched q life w _)
    | inr (o, p) ↦ elim (Bool-cases o.show_version) [
      | inl v ↦ rw (run, p, v) (untouched q life w _)
      | inr v ↦ elim (Option-cases (check_options o)) [
        | inr (e, c) ↦ rw (run, p, v, c) (untouched q life w _)
        | inl c ↦ rw (run, p, v, c) (run_traced-IsReleased q life o w h)
      ]
    ]
  ]
