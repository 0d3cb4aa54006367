-- ===== src/Observability/Setup.antt =====
-- The setup and the shutdown of the telemetry, pkg/observability/telemetry.go. The SDK is a parameter:
-- what its constructors return, and what the shutdown of a provider does.
use open_research_agent.Base.{
  List, [], ◌∷◌, ◌++◌, Bool, true, ℤ, pos, some, none, Option, String, str_eq, if◌then◌else◌, codes,
  Float64, float_one,
}
use open_research_agent.Observability.Data.{Attributes}
use open_research_agent.Observability.Recording.{Meter}
use open_research_agent.Domain.{Bytes}

pub record TelemetryConfig : Type 0 where
  pub service_name : String
  pub service_version : String
  pub environment : String
  pub otlp_endpoint : String
  pub prometheus_port : ℤ
  pub sampling_rate : Float64
  pub enable_tracing : Bool
  pub enable_metrics : Bool
  pub enable_logging : Bool

-- The no-op tracer, or that of a provider with its sampling rate.
pub data Tracer : Type 0 where
  noop_tracer : Tracer
  provided_tracer : Float64 → Tracer

pub data Provider : Type 0 where
  tracer_provider meter_provider : Provider

pub record Telemetry : Type 0 where
  pub config : TelemetryConfig
  pub tracer : Tracer
  pub meter : Option Meter
  pub shutdown_funcs : List Provider

-- The error of each constructor of the SDK, if any, and the meter of a provider.
pub record Sdk : Type 0 where
  pub merge_resource : TelemetryConfig → Option Bytes
  pub new_trace_exporter : String → Option Bytes
  pub new_prometheus_exporter : Option Bytes
  pub provider_meter : String → Meter

pub data TelemetryError : Type 0 where
  resource_not_created tracing_not_initialized metrics_not_initialized : Bytes → TelemetryError

-- A failed setup returns its error alone; the providers are those that it leaves running.
pub data TelemetrySetup : Type 0 where
  telemetry_ready : Telemetry → TelemetrySetup
  telemetry_failed : TelemetryError → List Provider → TelemetrySetup

unfoldable pub get_env_or_default : (String → String) → String → String → String
get_env_or_default env key default_value =
    let value = env key in if str_eq value "" then default_value else value

unfoldable pub default_config : (String → String) → TelemetryConfig
unfolding get_env_or_default
default_config env = record {
  service_name = "open-research-agent";
  service_version = "0.1.0";
  environment = get_env_or_default env "ENVIRONMENT" "development";
  otlp_endpoint = get_env_or_default env "OTEL_EXPORTER_OTLP_ENDPOINT" "localhost:4317";
  prometheus_port = pos 2223;
  sampling_rate = float_one;
  enable_tracing = true;
  enable_metrics = true;
  enable_logging = true;
}

unfoldable pub init_tracing : Sdk → Telemetry → TelemetrySetup
init_tracing sdk t = elim (sdk.new_trace_exporter t.config.otlp_endpoint) [
  | none ↦ telemetry_ready (record t {
    tracer = provided_tracer t.config.sampling_rate;
    shutdown_funcs = t.shutdown_funcs ++ tracer_provider ∷ [];
  })
  | some err ↦ telemetry_failed (tracing_not_initialized err) t.shutdown_funcs
]

unfoldable pub init_metrics : Sdk → Telemetry → TelemetrySetup
init_metrics sdk t = elim sdk.new_prometheus_exporter [
  | none ↦ telemetry_ready (record t {
    meter = some (sdk.provider_meter t.config.service_name);
    shutdown_funcs = t.shutdown_funcs ++ meter_provider ∷ [];
  })
  | some err ↦ telemetry_failed (metrics_not_initialized err) t.shutdown_funcs
]

abbrev pub setup_then : TelemetrySetup → (Telemetry → TelemetrySetup) → TelemetrySetup
setup_then (telemetry_ready t) next = next t
setup_then (telemetry_failed err running) next = telemetry_failed err running

-- Of `NewTelemetry`, what follows the resource.
unfoldable pub set_up : Sdk → TelemetryConfig → TelemetrySetup
unfolding init_tracing init_metrics
set_up sdk config =
    let t : Telemetry = record {
      config = config;
      tracer = noop_tracer;
      meter = none;
      shutdown_funcs = [];
    } in
    setup_then (if config.enable_tracing then init_tracing sdk t else telemetry_ready t)
      (λ traced. if config.enable_metrics then init_metrics sdk traced else telemetry_ready traced)

-- The configuration that a setup works with.
abbrev pub config_of : (String → String) → Option TelemetryConfig → TelemetryConfig
config_of env none = default_config env
config_of env (some config) = config

-- By what the merge of the resource returns.
abbrev pub begun : Sdk → TelemetryConfig → Option Bytes → TelemetrySetup
begun sdk config none = set_up sdk config
begun sdk config (some err) = telemetry_failed (resource_not_created err) []

unfoldable pub new_telemetry : Sdk → (String → String) → Option TelemetryConfig → TelemetrySetup
new_telemetry sdk env given =
    let config = config_of env given in begun sdk config (sdk.merge_resource config)

-- `%v; %w` of two errors.
abbrev pub combine : Option Bytes → Option Bytes → Option Bytes
combine err none = err
combine none (some shutdown_err) = some shutdown_err
combine (some err) (some shutdown_err) = some (err ++ codes "; " ++ shutdown_err)

-- The loop of `Shutdown`, by what each function returns.
abbrev pub shutdown_loop : (Provider → Option Bytes) → List Provider → Option Bytes → Option Bytes
shutdown_loop close [] err = err
shutdown_loop close (fn ∷ fns) err = shutdown_loop close fns (combine err (close fn))

unfoldable pub shutdown : (Provider → Option Bytes) → Telemetry → Option Bytes
shutdown close t = shutdown_loop close t.shutdown_funcs none

pub data MetricRecorded : Type 0 where
  metric_recorded : String → Float64 → Attributes → MetricRecorded
  counter_not_created : Bytes → MetricRecorded
  record_panicked : MetricRecorded

-- `RecordMetric`; `counter` is the outcome of `Float64Counter` for a name.
unfoldable pub record_metric :
    (String → Option Bytes) → Telemetry → String → Float64 → Attributes → MetricRecorded
record_metric counter t name value attributes = elim t.meter [
  | none ↦ record_panicked
  | some meter ↦ elim (counter name) [
    | none ↦ metric_recorded name value attributes
    | some err ↦ counter_not_created err
  ]
]
