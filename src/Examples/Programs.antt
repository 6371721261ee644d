-- ===== src/Examples/Programs.antt =====
-- The two programs, and the agent's `Run`, over the example parameters.
use seine.Prelude.{
  String, refl, Bool, true, false, Option, none, some, List, [], ◌∷◌, ◌<>◌, ◌==◌, if◌then◌else◌,
}
use seine.Prelude.Int.{pos}
use seine.Spec.Types.{Duration}
use seine.Wg.Keys.{not_exist}
use seine.Wg.Iface.{WgPeer, PeerConfig}
use seine.AgentCore.Config
use seine.AgentCore.Enrolment.{missing}
use seine.AgentCore.Run
use seine.AgentCore.Run.{Boot, Machine, Exit, stopped, pending}
use seine.AgentCore.Deferred.{IsLeft}
use seine.AgentCore.Exits.{run-IsLeft}
use seine.Command.Options.{Environment}
use seine.Command.AgentRun
use seine.Command.AgentRun.{Life, World}
use seine.Command.Released.{IsReleased, run-IsReleased}
use seine.Command.ServerRun
use seine.Command.Served.{IsIdle, serve-IsReleased}
use seine.Examples.Agent.{blank, granting}
use seine.Examples.Sample.{laptop, sample_net, sample_doc}
use seine.Examples.Device.{sample_keys}
use seine.Examples.Install.{sample_tables}
use seine.Examples.Cycle.{cfg, cycle}
use seine.Examples.Link.{Nics, sample_kernel, no_nics}
use seine.Examples.Git.{local_git, empty_disk}
use seine.Examples.Watch.{decode, at}
use seine.Examples.Telemetry.{sample_sdk, sample_sdk_laws}

abbrev join : String → String → String
join a b = a <> ("/" <> b)

abbrev device : Nics → Option (List (WgPeer sample_net sample_keys))
device s = some []

abbrev configure : List (PeerConfig sample_net sample_keys) → Nics → Bool × Nics
configure peers s = (true, s)

abbrev agent : Config.Agent
agent = record {
  cfg = cfg;
  key_path = "/var/lib/seine/gw/private.key";
  token_path = "/var/lib/seine/gw/auth.token";
}

abbrev host :
    (a : Config.Agent)
    → Machine sample_net sample_keys sample_kernel device configure sample_tables a
host a = record {
  host = record { identity = blank; wireguard = no_nics; tables = []; firewalled = false };
  connected = false;
  ip_forward = some "0\n";
  key_file = none;
}

-- A first start: the key is generated and the hub enrols.
abbrev boot : Boot sample_keys
boot = record {
  state_dir_ok = true;
  key_file = not_exist;
  fresh_key = some laptop;
  mkdir_ok = true;
  write_ok = true;
  dial_ok = true;
  token_file = missing;
  attempts = (granting, false) ∷ [];
  loaded = true;
  wakes = [];
  current = some sample_doc;
  current_up = some sample_doc;
  forwarding_writable = true;
  iptables_ok = true;
  first = cycle;
  cycles = cycle ∷ [];
}

run-IsLeft_example :
    IsLeft sample_net sample_keys sample_kernel device configure sample_tables agent (host agent) (
      Run.run sample_net sample_keys sample_kernel device configure sample_tables agent boot
        (host agent))
run-IsLeft_example =
    run-IsLeft sample_net sample_keys sample_kernel device configure sample_tables agent boot
      (host agent) refl

abbrev no_duration : String → Option Duration
no_duration text = none

abbrev env : Environment
env key =
    if key == "SEINE_GIT_URL"
    then some "https://git.example/net.git"
    else if key == "SEINE_BOOTSTRAP_TOKEN"
    then some "boot"
    else none

abbrev agent_args : List String
agent_args =
    "--name=gw" ∷ "-mode" ∷ "hub" ∷ "--control-plane" ∷ "cp:443" ∷ "--advertise-endpoint=gw:1" ∷ []

abbrev life :
    Life no_duration join "dev" sample_sdk local_git sample_net decode sample_keys sample_kernel
      device configure sample_tables
life = record {
  meter_ok = true;
  host = host;
  boot = boot;
  pulls = at (pos 1) ∷ [];
  overtaken = λ s. s;
  beside = λ s. empty_disk;
}

abbrev world :
    World no_duration join "dev" sample_sdk local_git sample_net decode sample_keys sample_kernel
      device configure sample_tables
world = record { telemetry = 3 ∷ []; files = empty_disk; source_open = false }

run-IsReleased_example :
    IsReleased no_duration join "dev" sample_sdk sample_sdk_laws local_git sample_net decode
      sample_keys sample_kernel device configure sample_tables 7 life world
      (AgentRun.run no_duration join "dev" sample_sdk local_git sample_net decode sample_keys
        sample_kernel device configure sample_tables env agent_args life world)
run-IsReleased_example =
    run-IsReleased no_duration join "dev" sample_sdk sample_sdk_laws local_git sample_net decode
      sample_keys sample_kernel device configure sample_tables 7 env agent_args life world refl

abbrev server_life : ServerRun.Life no_duration "dev" sample_sdk local_git sample_net decode
server_life = record {
  opened = true;
  pinged = true;
  migrated = true;
  database = none;
  listen_ok = true;
  serve_ok = true;
  pulls = at (pos 1) ∷ [];
  overtaken = λ s. s;
  beside = λ s. empty_disk;
}

abbrev server_world : ServerRun.World no_duration "dev" sample_sdk local_git sample_net decode
server_world = record {
  telemetry = 3 ∷ [];
  files = empty_disk;
  database_open = false;
  source_open = false;
  watching = false;
}

server_world-IsIdle :
    IsIdle no_duration "dev" sample_sdk sample_sdk_laws local_git sample_net decode server_world
server_world-IsIdle = record { database = refl; source = refl }

serve-IsReleased_example :
    seine.Command.Served.IsReleased no_duration "dev" sample_sdk sample_sdk_laws local_git
      sample_net decode 7 server_life server_world
      (ServerRun.run no_duration "dev" sample_sdk local_git sample_net decode env [] server_life
        server_world).1
serve-IsReleased_example =
    serve-IsReleased no_duration "dev" sample_sdk sample_sdk_laws local_git sample_net decode 7 env
      [] server_life server_world server_world-IsIdle
