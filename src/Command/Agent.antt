-- ===== src/Command/Agent.antt =====
-- cmd/seine-agent/main.go: the options and the checks of `run`.
use seine.Prelude.{
  String, Bool, true, false, not, ◌&&◌, Option, none, some, List, [], ◌∷◌, ◌==◌, if◌then◌else◌,
}
use seine.Prelude.Int.{pos}
use seine.Prelude.Result.{Result, ok, err}
use seine.Spec.Types.{Duration}
use seine.Logging.{parse_level, parse_format}
use seine.Otel
use seine.GitSource
use seine.GitSource.{OpenError}
use seine.SpecSource
use seine.AgentCore.Config
use seine.AgentCore.Config.{ConfigError, mode_hub, mode_spoke}
use seine.AgentCore.Run.{RunError}
use seine.Command.Flags.{
  FlagSet, FlagError, Setting, bool_flag, text_flag, duration_flag, parse_args, given,
}
use seine.Command.Options.{
  Environment, getenv, env_or, build_git_auth, given_bool, duration_env, given_duration,
}

pub record Options : Type 0 where
  pub show_version : Bool
  pub log_level : String
  pub log_format : String
  pub name : String
  pub mode : String
  pub control_plane_addr : String
  pub bootstrap_token : String
  pub advertised_endpoint : String
  pub interface_name : String
  pub state_dir : String
  pub reconcile_interval : Duration
  pub git_url : String
  pub git_branch : String
  pub git_path : String
  pub git_workdir : String
  pub git_interval : Duration
  pub git_token : String
  pub git_username : String
  pub git_ssh_key : String
  pub otlp_endpoint : String
  pub otlp_insecure : Bool

abbrev pub flags : FlagSet
flags =
    ("version", bool_flag)
    ∷ ("log-level", text_flag)
    ∷ ("log-format", text_flag)
    ∷ ("name", text_flag)
    ∷ ("mode", text_flag)
    ∷ ("control-plane", text_flag)
    ∷ ("bootstrap-token", text_flag)
    ∷ ("advertise-endpoint", text_flag)
    ∷ ("interface", text_flag)
    ∷ ("state-dir", text_flag)
    ∷ ("reconcile-interval", duration_flag)
    ∷ ("git-url", text_flag)
    ∷ ("git-branch", text_flag)
    ∷ ("git-path", text_flag)
    ∷ ("git-workdir", text_flag)
    ∷ ("git-interval", duration_flag)
    ∷ ("git-token", text_flag)
    ∷ ("git-username", text_flag)
    ∷ ("git-ssh-key", text_flag)
    ∷ ("otlp-endpoint", text_flag)
    ∷ ("otlp-insecure", bool_flag)
    ∷ []

module _ (parse_duration : String → Option Duration) where
  -- the options of the settings, over their defaults
  unfoldable pub options : Environment → List Setting → Options
  unfolding env_or given_bool duration_env given_duration given
  options env s =
      let half_minute = pos 30_000_000_000 in
      record {
        show_version = given_bool s "version" false;
        log_level = given s "log-level" (env_or env "SEINE_LOG_LEVEL" "info");
        log_format = given s "log-format" (env_or env "SEINE_LOG_FORMAT" "text");
        name = given s "name" (getenv env "SEINE_AGENT_NAME");
        mode = given s "mode" (env_or env "SEINE_MODE" "spoke");
        control_plane_addr = given s "control-plane" (getenv env "SEINE_CONTROL_PLANE");
        bootstrap_token = given s "bootstrap-token" (getenv env "SEINE_BOOTSTRAP_TOKEN");
        advertised_endpoint = given s "advertise-endpoint" (getenv env "SEINE_ADVERTISE_ENDPOINT");
        interface_name = given s "interface" (env_or env "SEINE_INTERFACE" "seine0");
        state_dir = given s "state-dir" (getenv env "SEINE_STATE_DIR");
        reconcile_interval =
            given_duration parse_duration s "reconcile-interval"
              (duration_env parse_duration env "SEINE_RECONCILE_INTERVAL" half_minute);
        git_url = given s "git-url" (getenv env "SEINE_GIT_URL");
        git_branch = given s "git-branch" (env_or env "SEINE_GIT_BRANCH" "main");
        git_path = given s "git-path" (env_or env "SEINE_GIT_PATH" "network.yaml");
        git_workdir = given s "git-workdir" (getenv env "SEINE_GIT_WORKDIR");
        git_interval =
            given_duration parse_duration s "git-interval"
              (duration_env parse_duration env "SEINE_GIT_INTERVAL" half_minute);
        git_token = given s "git-token" (getenv env "SEINE_GIT_TOKEN");
        git_username = given s "git-username" (env_or env "SEINE_GIT_USERNAME" "git");
        git_ssh_key = given s "git-ssh-key" (getenv env "SEINE_GIT_SSH_KEY");
        otlp_endpoint = given s "otlp-endpoint" (getenv env "SEINE_OTLP_ENDPOINT");
        otlp_insecure =
            given_bool s "otlp-insecure" (env_or env "SEINE_OTLP_INSECURE" "true" == "true");
      }

  -- `parseFlags`, on the arguments after the program's name
  unfoldable pub parse_flags : Environment → List String → Result FlagError Options
  unfolding parse_args options
  parse_flags env args = elim (parse_args parse_duration flags args) [
    | err e ↦ err e
    | ok settings ↦ ok (options env settings)
  ]

pub data CommandError : Type 0 where
  command_line : FlagError → CommandError
  log_level log_format name_required control_plane_required git_url_required invalid_mode
        endpoint_required :
      CommandError
  otel_setup : Otel.OtelError → CommandError
  spec_source : OpenError → CommandError
  new_agent : ConfigError → CommandError
  run_agent : RunError → CommandError

-- the checks of `run` before it starts anything
unfoldable pub check_options : Options → Option CommandError
unfolding parse_level parse_format
check_options o = elim (parse_level o.log_level) [
  | none ↦ some log_level
  | some level ↦ elim (parse_format o.log_format) [
    | none ↦ some log_format
    | some format ↦
        if o.name == ""
        then some name_required
        else if o.control_plane_addr == ""
        then some control_plane_required
        else if o.git_url == ""
        then some git_url_required
        else if not (o.mode == mode_spoke) && not (o.mode == mode_hub)
        then some invalid_mode
        else if (o.mode == mode_hub) && (o.advertised_endpoint == "")
        then some endpoint_required
        else none
  ]
]

-- what `run` builds from the options
unfoldable pub otel_config : String → Options → Otel.Config
otel_config version o = record {
  service_name = "seine-agent";
  service_version = version;
  otlp_endpoint = o.otlp_endpoint;
  insecure = o.otlp_insecure;
}

unfoldable pub source_config : Options → GitSource.Config
unfolding build_git_auth
source_config o = record {
  url = o.git_url;
  branch = o.git_branch;
  path = o.git_path;
  workdir = o.git_workdir;
  auth = some (build_git_auth o.git_username o.git_token o.git_ssh_key);
}

unfoldable pub watcher_config : Options → SpecSource.Config
watcher_config o = record { interval = o.git_interval; min_backoff = pos 0; max_backoff = pos 0 }

-- `join` is `filepath.Join` of two elements.
unfoldable pub agent_config : (String → String → String) → Options → Config.Config
agent_config join o = record {
  name = o.name;
  mode = o.mode;
  has_spec = true;
  control_plane_addr = o.control_plane_addr;
  bootstrap_token = o.bootstrap_token;
  advertised_endpoint = o.advertised_endpoint;
  interface_name = o.interface_name;
  state_dir = if o.state_dir == "" then join "/var/lib/seine" o.name else o.state_dir;
  reconcile_interval = o.reconcile_interval;
  spec_first_load_timeout = pos 0;
  register_retry_interval = pos 0;
}
