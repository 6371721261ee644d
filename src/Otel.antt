-- ===== src/Otel.antt =====
-- internal/otel/otel.go: the telemetry providers. The SDK and its exporters are a parameter over one
-- state; `none` and `false` are errors.
pub mod Drained
use seine.Prelude.{String, Bool, true, false, ◌&&◌, ◌==◌, Option, none, some, Eq, if◌then◌else◌}
use seine.Prelude.Result.{Result, ok, err}

pub data Signal : Type 0 where
  traces metrics logs : Signal

pub record Sdk : Type 1 where
  pub State : Type 0
  pub Resource : Type 0
  pub Exporter : Type 0
  pub Provider : Type 0
  pub provider_eq : Eq Provider
  pub new_resource : String → String → State → Option Resource × State
  -- an exporter to an endpoint, without TLS if the flag is set
  pub new_exporter : Signal → String → Bool → State → Option Exporter × State
  pub new_provider : Signal → Exporter → Resource → State → Provider × State
  pub set_provider : Signal → Provider → State → State
  pub set_propagators : State → State
  pub shutdown : Provider → State → Bool × State

pub record Config : Type 0 where
  pub service_name : String
  pub service_version : String
  pub otlp_endpoint : String
  pub insecure : Bool

pub data OtelError : Type 0 where
  service_name_required build_resource : OtelError
  exporter : Signal → OtelError

module _ (sdk : Sdk) where
  open sdk use {State, Resource, Exporter, Provider}

  -- `ShutdownFunc`; the flag says that there was no error.
  abbrev pub ShutdownFunc : Type 0
  ShutdownFunc = State → Bool × State

  unfoldable pub noop_shutdown : ShutdownFunc
  noop_shutdown s = (true, s)

  abbrev pub installed :
      Signal → Option Exporter × State → Resource → Result OtelError Provider × State
  installed signal (none, s) res = (err (exporter signal), s)
  installed signal (some exp, s) res =
      let made = sdk.new_provider signal exp res s in
      (ok (made.0), sdk.set_provider signal made.0 made.1)

  -- `setupTracer`, `setupMeter` and `setupLogger`: the provider stands for its `Shutdown`.
  unfoldable pub setup_signal :
      Signal → Config → Resource → State → Result OtelError Provider × State
  setup_signal signal cfg res s =
      installed signal (sdk.new_exporter signal cfg.otlp_endpoint cfg.insecure s) res

  -- the combined shutdown: all three, whatever each returns
  unfoldable pub shutdown_all : Provider → Provider → Provider → ShutdownFunc
  shutdown_all tp mp lp s =
      let traced = sdk.shutdown tp s in
      let metered = sdk.shutdown mp traced.1 in
      let logged = sdk.shutdown lp metered.1 in (traced.0 && (metered.0 && logged.0), logged.1)

  -- The shutdown function, the error if there is one, and the state.
  abbrev pub Setup : Type 0
  Setup = ShutdownFunc × Option OtelError × State

  abbrev pub refused : OtelError → State → Setup
  refused e s = (noop_shutdown, some e, s)

  -- after the tracer and the meter
  unfoldable pub with_meter : Provider → Provider → Result OtelError Provider × State → Setup
  unfolding noop_shutdown shutdown_all
  with_meter tp mp (err e, s) = refused e (sdk.shutdown mp (sdk.shutdown tp s).1).1
  with_meter tp mp (ok lp, s) = (shutdown_all tp mp lp, none, sdk.set_propagators s)

  -- after the tracer
  unfoldable pub with_tracer :
      Config → Resource → Provider → Result OtelError Provider × State → Setup
  unfolding noop_shutdown setup_signal with_meter
  with_tracer cfg res tp (err e, s) = refused e (sdk.shutdown tp s).1
  with_tracer cfg res tp (ok mp, s) = with_meter tp mp (setup_signal logs cfg res s)

  -- after the resource
  unfoldable pub with_resource : Config → Resource → Result OtelError Provider × State → Setup
  unfolding noop_shutdown setup_signal with_tracer
  with_resource cfg res (err e, s) = refused e s
  with_resource cfg res (ok tp, s) = with_tracer cfg res tp (setup_signal metrics cfg res s)

  unfoldable pub described : Config → Option Resource × State → Setup
  unfolding noop_shutdown setup_signal with_resource
  described cfg (none, s) = refused build_resource s
  described cfg (some res, s) = with_resource cfg res (setup_signal traces cfg res s)

  unfoldable pub setup : Config → State → Setup
  unfolding noop_shutdown described
  setup cfg s =
      if cfg.service_name == ""
      then refused service_name_required s
      else if cfg.otlp_endpoint == ""
      then (noop_shutdown, none, s)
      else described cfg (sdk.new_resource cfg.service_name cfg.service_version s)
