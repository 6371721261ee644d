-- ===== src/Command/ServerRun.antt =====
-- cmd/seine-server/main.go: `run`, from the command line to the end, with its deferred calls.
use seine.Prelude.{String, Bool, true, false, Option, none, some, List, [], ◌∷◌, if◌then◌else◌}
use seine.Prelude.Result.{ok, err}
use seine.External.{Net}
use seine.Api.{Time}
use seine.Spec.Types.{Duration}
use seine.Spec.Parse.{Decoded}
use seine.Store.{Table}
use seine.Store.Open
use seine.Otel.{Sdk, ShutdownFunc, setup}
use seine.GitSource.Transport.{Client}
use seine.SpecSource.Follow.{Tracker, new, close_source, sync}
use seine.Command.Options.{Environment}
use seine.Command.Server.{
  Options, CommandError, command_line, listen, serve, otel_setup, open_store, spec_source,
  new_server, parse_flags, check_options, otel_config, source_config, watcher_config,
}

-- How the program comes to its end.
pub data Ended : Type 0 where
  printed_version finished : Ended
  exit_error : CommandError → Ended

module _ (parse_duration : String → Option Duration) (version : String) (sdk : Sdk) (git : Client)
    (net : Net) (decode : String → Decoded) where
  -- The telemetry SDK, the local directories with the remotes, and whether the database is open, a
  -- watcher is not closed, and the watcher's goroutine has been started.
  pub record World : Type 0 where
    pub telemetry : sdk.State
    pub files : git.State
    pub database_open : Bool
    pub source_open : Bool
    pub watching : Bool

  -- What the server meets: the driver's answers and the database of its path, whether it can listen,
  -- what `Serve` returns, and what the watcher's goroutine does, which nobody waits for: the instants of
  -- the pulls that it completes before `Close`, and what a pull that `Close` overtakes does to the files
  -- before and after it. Nothing is supposed of these two.
  pub record Life : Type 0 where
    pub opened : Bool
    pub pinged : Bool
    pub migrated : Bool
    pub database : Option Table
    pub listen_ok : Bool
    pub serve_ok : Bool
    pub pulls : List Time
    pub overtaken : git.State → git.State
    pub beside : git.State → git.State

  abbrev pub at_return : (World → World) → Ended × World → Ended × World
  at_return f (ended, w) = (ended, f w)

  -- the pulls of the watcher's goroutine
  unfoldable pub watch : List Time → Tracker → git.State → Tracker × git.State
  unfolding sync
  watch [] w s = (w, s)
  watch (now ∷ rest) w s = let done = sync git net decode now w s in watch rest done.1 done.2

  -- the server's configuration, the listener and `Serve`; the store and the watcher are there
  unfoldable pub run_server : Life → Options → Tracker → World → Ended × World
  unfolding seine.ControlPlane.Server.new_server watch
  run_server life o tracker w =
      elim (seine.ControlPlane.Server.new_server true true o.bootstrap_token) [
        | err e ↦ (exit_error (new_server e), w)
        | ok token ↦
            if life.listen_ok
            then (let w' = record w {
              files = life.overtaken (watch life.pulls tracker w.files).1;
              watching = true;
            } in
                if life.serve_ok then (finished, w') else (exit_error serve, w'))
            else (exit_error listen, w)
      ]

  -- the deferred functions; where the goroutine was started, it may go on beside `Close` and after it
  unfoldable pub close_watcher : Life → Tracker → World → World
  unfolding close_source
  close_watcher life t w =
      let left = (close_source git t w.files).2 in
      record w { files = if w.watching then life.beside left else left; source_open = false }

  abbrev pub close_store : World → World
  close_store w = record w { database_open = false }

  abbrev pub drain : ShutdownFunc sdk → World → World
  drain shutdown w = record w { telemetry = (shutdown w.telemetry).1 }

  -- after the store is open
  unfoldable pub run_watched : Life → Options → World → Ended × World
  unfolding new source_config watcher_config run_server close_watcher
  run_watched life o w =
      let made = new git (watcher_config o) (source_config o) w.files in
      let w' = record w { files = made.1 } in
      elim (made.0) [
        | err e ↦ (exit_error (spec_source e), w')
        | ok tracker ↦
            at_return (close_watcher life tracker)
              (run_server life o tracker (record w' { source_open = true }))
      ]

  -- after the telemetry is set up
  unfoldable pub run_stored : Life → Options → World → Ended × World
  unfolding Open.open_store run_watched
  run_stored life o w =
      let store = Open.open_store life.opened life.pinged life.migrated life.database in
      let w' = record w { database_open = store.1 } in
      elim (store.0) [
        | err e ↦ (exit_error (open_store e), w')
        | ok db ↦ at_return close_store (run_watched life o w')
      ]

  -- after the checks
  unfoldable pub run_traced : Life → Options → World → Ended × World
  unfolding otel_config setup run_stored
  run_traced life o w =
      let set_up = setup sdk (otel_config version o) w.telemetry in
      let w' = record w { telemetry = set_up.2 } in
      elim (set_up.1) [
        | some e ↦ (exit_error (otel_setup e), w')
        | none ↦ at_return (drain set_up.0) (run_stored life o w')
      ]

  unfoldable pub run : Environment → List String → Life → World → Ended × World
  unfolding parse_flags check_options run_traced
  run env args life w = elim (parse_flags parse_duration env args) [
    | err e ↦ (exit_error (command_line e), w)
    | ok o ↦
        if o.show_version
        then (printed_version, w)
        else elim (check_options o) [ some e ↦ (exit_error e, w) | none ↦ run_traced life o w ]
  ]
