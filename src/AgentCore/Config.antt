-- ===== src/AgentCore/Config.antt =====
-- internal/agentcore/agent.go: the configuration and `New`.
use seine.Prelude.{String, Bool, not, ◌&&◌, ◌==◌, if◌then◌else◌}
use seine.Prelude.Int.{pos, or_positive}
use seine.Prelude.Result.{Result, ok, err}
use seine.Spec.Types.{Duration}

abbrev pub Mode : Type 0
Mode = String

abbrev pub mode_spoke : Mode
mode_spoke = "spoke"

abbrev pub mode_hub : Mode
mode_hub = "hub"

-- `has_spec` says that the watcher is not nil.
pub record Config : Type 0 where
  pub name : String
  pub mode : Mode
  pub has_spec : Bool
  pub control_plane_addr : String
  pub bootstrap_token : String
  pub advertised_endpoint : String
  pub interface_name : String
  pub state_dir : String
  pub reconcile_interval : Duration
  pub spec_first_load_timeout : Duration
  pub register_retry_interval : Duration

pub data ConfigError : Type 0 where
  name_required invalid_mode spec_required addr_required meter : ConfigError

pub record Agent : Type 0 where
  pub cfg : Config
  pub key_path : String
  pub token_path : String

-- `join` is `filepath.Join` of two elements.
module _ (join : String → String → String) where
  unfoldable pub apply_defaults : Config → Config
  apply_defaults c = record c {
    interface_name = if c.interface_name == "" then "seine0" else c.interface_name;
    state_dir = if c.state_dir == "" then join "/var/lib/seine" c.name else c.state_dir;
    reconcile_interval = or_positive c.reconcile_interval (pos 30_000_000_000);
    spec_first_load_timeout = or_positive c.spec_first_load_timeout (pos 60_000_000_000);
    register_retry_interval = or_positive c.register_retry_interval (pos 5_000_000_000);
  }

  -- `meter_ok` says that both telemetry instruments could be made.
  unfoldable pub new : Bool → Config → Result ConfigError Agent
  unfolding apply_defaults
  new meter_ok cfg =
      if cfg.name == ""
      then err name_required
      else if not (cfg.mode == mode_spoke) && not (cfg.mode == mode_hub)
      then err invalid_mode
      else if not cfg.has_spec
      then err spec_required
      else if cfg.control_plane_addr == ""
      then err addr_required
      else if not meter_ok
      then err meter
      else (let cfg' = apply_defaults cfg in
          ok (record {
            cfg = cfg';
            key_path = join cfg'.state_dir "private.key";
            token_path = join cfg'.state_dir "auth.token";
          }))
