-- ===== src/Command/Served.antt =====
-- cmd/seine-server/main.go: what the program leaves behind, however it ends.
use seine.Prelude.{
  String, ◌≡◌, refl, sym, ◌∙◌, ◌⊎◌, inl, inr, Bool, true, false, Option, List, ap, ◌==◌, Bool-cases,
  Option-cases,
}
use seine.Prelude.Result.{ok, err, Result-cases}
use seine.External.{Net}
use seine.Spec.Types.{Duration}
use seine.Spec.Parse.{Decoded}
use seine.Store.{Table}
use seine.Store.Open.{OpenError, open_store}
use seine.Otel.{Sdk, setup}
use seine.Otel.Drained.{SdkLaws, drained, setup-drained, setup-refused}
use seine.GitSource
use seine.GitSource.Transport.{Client}
use seine.SpecSource
use seine.SpecSource.Follow.{Tracker, new, close_source}
use seine.Command.Options.{Environment}
use seine.Command.Server.{
  Options, parse_flags, check_options, otel_config, source_config, watcher_config,
}
use seine.Command.ServerRun.{
  World, Life, run_server, run_watched, run_stored, run_traced, run, close_watcher,
}

-- `Open` closes the database on an error.
open_store_error :
    (opened pinged migrated : Bool) (db : Option Table) (e : OpenError)
    → (open_store opened pinged migrated db).0 ≡ err e
    → (open_store opened pinged migrated db).1 ≡ false
unfolding open_store
open_store_error false pinged migrated db e h = refl
open_store_error true false migrated db e h = refl
open_store_error true true false db e h = refl
open_store_error true true true db e h = cc

module _ (parse_duration : String → Option Duration) (version : String) (sdk : Sdk)
    (laws : SdkLaws sdk) (git : Client) (net : Net) (decode : String → Decoded) where
  open laws use {live}

  abbrev pub W : Type 0
  W = World parse_duration version sdk git net decode

  abbrev pub L : Type 0
  L = Life parse_duration version sdk git net decode

  -- No Git source was opened; or `Close` was called on the watcher that was opened, and nothing came
  -- after it on the files but what its goroutine still did.
  pub record IsClosed (life : L) (w w' : W) : Type 0 where
    pub files :
        ((w'.files ≡ w.files)
          ⊎ ((cfg : SpecSource.Config) × (source : GitSource.Config) × (e : GitSource.OpenError)
              × ((new git cfg source w.files).0 ≡ err e)
              × (w'.files ≡ (new git cfg source w.files).1)))
        ⊎ ((cfg : SpecSource.Config) × (source : GitSource.Config) × (t : Tracker) × (s : git.State)
            × ((new git cfg source w.files).0 ≡ ok t)
            × ((w'.files ≡ (close_source git t s).2)
                ⊎ (w'.files ≡ life.beside (close_source git t s).2)))
    pub source : w'.source_open ≡ w.source_open

  -- Nothing is left: a telemetry provider `q` runs if and only if it ran before.
  pub record IsReleased (q : sdk.Provider) (life : L) (w w' : W) : Type 0 where
    pub telemetry : live q w'.telemetry ≡ live q w.telemetry
    pub database : w'.database_open ≡ w.database_open
    pub closed : IsClosed life w w'

  -- Nothing of the server is open.
  pub record IsIdle (w : W) : Type 0 where
    pub database : w.database_open ≡ false
    pub source : w.source_open ≡ false

  untouched : (q : sdk.Provider) (life : L) (w : W) → IsReleased q life w w
  untouched q life w = record {
    telemetry = refl;
    database = refl;
    closed = record { files = inl (inl refl); source = refl };
  }

  closed_files :
      (life : L) (t : Tracker) (w : W)
      → ((close_watcher parse_duration version sdk git net decode life t w).files
          ≡ (close_source git t w.files).2)
        ⊎ ((close_watcher parse_duration version sdk git net decode life t w).files
            ≡ life.beside (close_source git t w.files).2)
  unfolding close_watcher
  closed_files life t w = elim (Bool-cases w.watching) [
    | inl b ↦ inr (rw (close_watcher, b) refl)
    | inr b ↦ inl (rw (close_watcher, b) refl)
  ]

  run_server-telemetry :
      (life : L) (o : Options) (t : Tracker) (w : W)
      → (run_server parse_duration version sdk git net decode life o t w).1.telemetry ≡ w.telemetry
  unfolding run_server
  run_server-telemetry life o t w = elim (Bool-cases (o.bootstrap_token == "")) [
    | inl a ↦ rw (run_server, a) refl
    | inr a ↦ elim (Bool-cases life.listen_ok) [
      | inr b ↦ rw (run_server, a, b) refl
      | inl b ↦ elim (Bool-cases life.serve_ok) [
        | inl c ↦ rw (run_server, a, b, c) refl
        | inr c ↦ rw (run_server, a, b, c) refl
      ]
    ]
  ]

  -- What the parts below the telemetry establish.
  record IsStored (life : L) (w w' : W) : Type 0 where
    telemetry : w'.telemetry ≡ w.telemetry
    closed : IsClosed life w w'

  run_watched-IsStored :
      (life : L) (o : Options) (w : W)
      → w.source_open ≡ false
      → IsStored life w (run_watched parse_duration version sdk git net decode life o w).1
  unfolding run_watched close_watcher
  run_watched-IsStored life o w c =
      let made = new git (watcher_config o) (source_config o) w.files in
      let w' : W = record w { files = made.1; source_open = true } in
      elim (Result-cases made.0) [
        | inl (e, p) ↦
            rw (run_watched, p)
              (record {
                telemetry = refl;
                closed = record {
                  files = inl (inr (watcher_config o, source_config o, e, p, refl));
                  source = refl;
                };
              })
        | inr (tracker, p) ↦
            let served = run_server parse_duration version sdk git net decode life o tracker w' in
            rw (run_watched, p)
              (record {
                telemetry = run_server-telemetry life o tracker w';
                closed = record {
                  files = inr (
                    watcher_config o,
                    source_config o,
                    tracker,
                    served.1.files,
                    p,
                    closed_files life tracker served.1,
                  );
                  source = sym c;
                };
              })
      ]

  -- The database is closed too.
  run_stored-IsStored :
      (life : L) (o : Options) (w : W)
      → w.source_open ≡ false
      → IsStored life w (run_stored parse_duration version sdk git net decode life o w).1
        × ((run_stored parse_duration version sdk git net decode life o w).1.database_open ≡ false)
  unfolding run_stored
  run_stored-IsStored life o w c =
      let store = open_store life.opened life.pinged life.migrated life.database in
      let w' : W = record w { database_open = store.1 } in
      elim (Result-cases store.0) [
        | inl (e, p) ↦
            rw (run_stored, p)
              (
                record {
                  telemetry = refl;
                  closed = record { files = inl (inl refl); source = refl };
                },
                open_store_error life.opened life.pinged life.migrated life.database e p,
              )
        | inr (db, p) ↦
            let inner = run_watched-IsStored life o w' c in
            rw (run_stored, p)
              (
                record {
                  telemetry = inner.telemetry;
                  closed = record { files = inner.closed.files; source = inner.closed.source };
                },
                refl,
              )
      ]

  run_traced-IsReleased :
      (q : sdk.Provider) (life : L) (o : Options) (w : W)
      → IsIdle w
      → IsReleased q life w (run_traced parse_duration version sdk git net decode life o w).1
  unfolding run_traced drained
  run_traced-IsReleased q life o w c =
      let cfg = otel_config version o in
      let set_up = setup sdk cfg w.telemetry in
      let stops = setup-drained sdk laws q cfg w.telemetry in
      let w' : W = record w { telemetry = set_up.2 } in
      elim (Option-cases set_up.1) [
        | inr (e, p) ↦
            let same = setup-refused sdk laws cfg w.telemetry e p in
            rw (run_traced, p)
              (record {
                telemetry = rw same at stops;
                database = refl;
                closed = record { files = inl (inl refl); source = refl };
              })
        | inl p ↦
            let (stored, closed) = run_stored-IsStored life o w' c.source in
            rw (run_traced, p)
              (record {
                telemetry = ap (λ z. live q (set_up.0 z).1) stored.telemetry ∙ stops;
                database = closed ∙ sym c.database;
                closed = record { files = stored.closed.files; source = stored.closed.source };
              })
      ]

  -- Where neither database nor watcher is open at the start, and however the server's program ends:
  -- a refused command line or option, a failure of the telemetry, the database, the Git source,
  -- the listener or `Serve`, or a stop: the same telemetry providers run as before, the database
  -- is closed, and no watcher is left open: on the one that was opened `Close` was called, after
  -- which only its own goroutine, which nobody waits for, may still have used the files.
  pub serve-IsReleased :
      (q : sdk.Provider) (env : Environment) (args : List String) (life : L) (w : W)
      → IsIdle w
      → IsReleased q life w (run parse_duration version sdk git net decode env args life w).1
  unfolding run
  serve-IsReleased q env args life w c = elim (Result-cases (parse_flags parse_duration env args)) [
    | inl (e, p) ↦ rw (run, p) (untouched q life w)
    | inr (o, p) ↦ elim (Bool-cases o.show_version) [
      | inl v ↦ rw (run, p, v) (untouched q life w)
      | inr v ↦ elim (Option-cases (check_options o)) [
        | inr (e, x) ↦ rw (run, p, v, x) (untouched q life w)
        | inl x ↦ rw (run, p, v, x) (run_traced-IsReleased q life o w c)
      ]
    ]
  ]
