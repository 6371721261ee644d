-- ===== src/Command/AgentRun.antt =====
-- cmd/seine-agent/main.go: `run`, from the command line to the end, with its deferred calls.
use seine.Prelude.{String, Bool, true, false, Option, none, some, List, [], ◌∷◌, if◌then◌else◌}
use seine.Prelude.Result.{ok, err}
use seine.External
use seine.External.{Net}
use seine.Api.{Time}
use seine.Spec.Types.{Duration}
use seine.Spec.Parse.{Decoded}
use seine.Otel.{Sdk, ShutdownFunc, setup}
use seine.GitSource.Transport.{Client}
use seine.SpecSource.Follow.{Tracker, new, close_source, sync}
use seine.Wg.Iface.{WgPeer, PeerConfig}
use seine.Wg.Link.{Kernel}
use seine.NetPolicy.Firewall.{IpTables}
use seine.AgentCore.Config
use seine.AgentCore.Config.{Agent}
use seine.AgentCore.Run.{Boot, Exit, Machine, stopped, pending, failed}
use seine.Command.Options.{Environment}
use seine.Command.Agent.{
  Options, CommandError, command_line, otel_setup, spec_source, new_agent, run_agent, parse_flags,
  check_options, otel_config, source_config, watcher_config, agent_config,
}

-- How the program comes to its end, if it does.
pub data Ended : Type 0 where
  printed_version finished running : Ended
  exit_error : CommandError → Ended

module _ (parse_duration : String → Option Duration) (join : String → String → String)
    (version : String) (sdk : Sdk) (git : Client) (net : Net) (decode : String → Decoded)
    (keys : External.Keys) (kernel : Kernel keys)
    (device : kernel.State → Option (List (WgPeer net keys)))
    (configure_device : List (PeerConfig net keys) → kernel.State → Bool × kernel.State)
    (ipt : IpTables) where
  -- The telemetry SDK, the local directories with the remotes, and whether a watcher is not closed.
  pub record World : Type 0 where
    pub telemetry : sdk.State
    pub files : git.State
    pub source_open : Bool

  -- What the agent meets: its host, what `Run` meets, and what the watcher's goroutine does, which nobody
  -- waits for: the instants of the pulls that it completes before `Close`, and what a pull that `Close`
  -- overtakes does to the files before and after it. Nothing is supposed of these two.
  pub record Life : Type 0 where
    pub meter_ok : Bool
    pub host : (agent : Agent) → Machine net keys kernel device configure_device ipt agent
    pub boot : Boot keys
    pub pulls : List Time
    pub overtaken : git.State → git.State
    pub beside : git.State → git.State

  abbrev pub at_return : (World → World) → Ended × World → Ended × World
  at_return f (running, w) = (running, w)
  at_return f (finished, w) = (finished, f w)
  at_return f (printed_version, w) = (printed_version, f w)
  at_return f (exit_error e, w) = (exit_error e, f w)

  -- the pulls of the watcher's goroutine
  unfoldable pub watch : List Time → Tracker → git.State → Tracker × git.State
  unfolding sync
  watch [] w s = (w, s)
  watch (now ∷ rest) w s = let done = sync git net decode now w s in watch rest done.1 done.2

  abbrev ended : Exit → Ended
  ended stopped = finished
  ended pending = running
  ended (failed e) = exit_error (run_agent e)

  -- `agentcore.New` and `agent.Run`
  unfoldable pub run_core : Life → Options → Ended
  unfolding agent_config Config.new seine.AgentCore.Run.run
  run_core life o = elim (Config.new join life.meter_ok (agent_config join o)) [
    | err e ↦ exit_error (new_agent e)
    | ok agent ↦
        ended
          (seine.AgentCore.Run.run net keys kernel device configure_device ipt agent life.boot
            (life.host agent)).0
  ]

  -- the deferred `watcher.Close()`, and what the goroutine still does
  unfoldable pub close_watcher : Life → Tracker → World → World
  unfolding close_source
  close_watcher life t w = record w {
    files = life.beside (close_source git t w.files).2;
    source_open = false;
  }

  -- after the telemetry is set up
  unfoldable pub run_watched : Life → Options → World → Ended × World
  unfolding new source_config watcher_config watch run_core close_watcher
  run_watched life o w =
      let made = new git (watcher_config o) (source_config o) w.files in
      let w' = record w { files = made.1 } in
      elim (made.0) [
        | err e ↦ (exit_error (spec_source e), w')
        | ok tracker ↦
            let watched = watch life.pulls tracker w'.files in
            at_return (close_watcher life tracker)
              (run_core life o, record w' { files = life.overtaken watched.1; source_open = true })
      ]

  -- the deferred shutdown
  abbrev pub drain : ShutdownFunc sdk → World → World
  drain shutdown w = record w { telemetry = (shutdown w.telemetry).1 }

  -- after the checks
  unfoldable pub run_traced : Life → Options → World → Ended × World
  unfolding otel_config setup run_watched
  run_traced life o w =
      let set_up = setup sdk (otel_config version o) w.telemetry in
      let w' = record w { telemetry = set_up.2 } in
      elim (set_up.1) [
        | some e ↦ (exit_error (otel_setup e), w')
        | none ↦ at_return (drain set_up.0) (run_watched life o w')
      ]

  unfoldable pub run : Environment → List String → Life → World → Ended × World
  unfolding parse_flags check_options run_traced
  run env args life w = elim (parse_flags parse_duration env args) [
    | err e ↦ (exit_error (command_line e), w)
    | ok o ↦
        if o.show_version
        then (printed_version, w)
        else elim (check_options o) [ some e ↦ (exit_error e, w) | none ↦ run_traced life o w ]
  ]
