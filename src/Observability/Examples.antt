-- ===== src/Observability/Examples.antt =====
-- The telemetry on a concrete configuration.
use open_research_agent.Base.{◌≡◌, refl, [], ◌∷◌, true, pos, some, none, Option, codes, float_one}
use open_research_agent.Domain.{Bytes}
use open_research_agent.Observability.Setup.{
  TelemetryConfig, Telemetry, Sdk, Provider, tracer_provider, meter_provider, telemetry_ready,
  new_telemetry, set_up, init_tracing, init_metrics, provided_tracer, shutdown,
}
use open_research_agent.Observability.Shutdown.{joined, shutdown-new_telemetry}

abbrev sdk : Sdk
sdk = record {
  merge_resource = λ config. none;
  new_trace_exporter = λ endpoint. none;
  new_prometheus_exporter = none;
  provider_meter = λ service kind name. none;
}

abbrev config : TelemetryConfig
config = record {
  service_name = "open-research-agent";
  service_version = "dev";
  environment = "development";
  otlp_endpoint = "localhost:4317";
  prometheus_port = pos 2223;
  sampling_rate = float_one;
  enable_tracing = true;
  enable_metrics = true;
  enable_logging = true;
}

abbrev started : Telemetry
started = record {
  config = config;
  tracer = provided_tracer float_one;
  meter = some (λ kind name. none);
  shutdown_funcs = tracer_provider ∷ meter_provider ∷ [];
}

-- Both shutdowns fail.
abbrev close : Provider → Option Bytes
close tracer_provider = some (codes "traces lost")
close meter_provider = some (codes "metrics lost")

config_starts : new_telemetry sdk (λ key. "") (some config) ≡ telemetry_ready started
unfolding new_telemetry set_up init_tracing init_metrics
config_starts = refl

shutdown-new_telemetry_example :
    shutdown close started ≡ joined (codes "traces lost" ∷ codes "metrics lost" ∷ [])
shutdown-new_telemetry_example =
    shutdown-new_telemetry sdk (λ key. "") (some config) started close config_starts
