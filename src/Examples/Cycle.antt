-- ===== src/Examples/Cycle.antt =====
-- A reconcile cycle of the sample network's hub.
use seine.Prelude.{◌≡◌, refl, Bool, true, false, Option, none, some, List, [], ◌∷◌}
use seine.Prelude.Int.{pos}
use seine.Prelude.Result.{ok, err}
use seine.Api.{HeartbeatResponse}
use seine.Wg.Iface.{WgPeer, PeerConfig}
use seine.AgentCore.Config.{Config, mode_hub}
use seine.AgentCore.Enrolment.{transport}
use seine.AgentCore.Reconcile.{Cycle, Host, reconcile_once}
use seine.AgentCore.Cycles.{Enforces, reconcile_once-Enforces}
use seine.Examples.Sample.{sample_net, sample_doc}
use seine.Examples.Device.{sample_keys, gateway_self, laptop_info}
use seine.Examples.Install.{sample_tables, sample_listing}

-- A device without peers that accepts every configuration; its state says whether there was one.
abbrev device : Bool → Option (List (WgPeer sample_net sample_keys))
device d = some []

abbrev configure : List (PeerConfig sample_net sample_keys) → Bool → Bool × Bool
configure peers d = (true, true)

abbrev pub cfg : Config
cfg = record {
  name = "gw";
  mode = mode_hub;
  has_spec = true;
  control_plane_addr = "cp.example.org:443";
  bootstrap_token = "boot";
  advertised_endpoint = "";
  interface_name = "seine0";
  state_dir = "/var/lib/seine/gw";
  reconcile_interval = pos 30_000_000_000;
  spec_first_load_timeout = pos 60_000_000_000;
  register_retry_interval = pos 5_000_000_000;
}

abbrev pub response : HeartbeatResponse
response = record { spec_commit = "c0ffee"; peers = laptop_info ∷ [] }

abbrev pub cycle : Cycle
cycle = record {
  answer = ok response;
  attempt = record { answer = err transport; writable = true; torn = none };
  current = some (sample_doc, "c0ffee");
}

abbrev hub : Host sample_net sample_keys device configure sample_tables
hub = record {
  identity = record { auth_token = "tok"; token_file = some "tok" };
  wireguard = false;
  tables = [];
  firewalled = true;
}

cycle_succeeds :
    (reconcile_once sample_net sample_keys device configure sample_tables cfg gateway_self cycle
      hub).0
    ≡ none
unfolding reconcile_once
cycle_succeeds = refl

reconcile_once-Enforces_example :
    Enforces sample_net sample_keys device configure sample_tables sample_listing sample_doc
      (reconcile_once sample_net sample_keys device configure sample_tables cfg gateway_self cycle
        hub).1.tables
reconcile_once-Enforces_example =
    reconcile_once-Enforces sample_net sample_keys device configure sample_tables sample_listing cfg
      gateway_self cycle hub response sample_doc "c0ffee" refl refl refl cycle_succeeds
