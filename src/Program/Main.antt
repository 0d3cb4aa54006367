-- ===== src/Program/Main.antt =====
-- The main function, cmd/ora/main.go: the telemetry, the run in its spans, and how the process exits. The
-- spans and metrics are what the SDK is told, `describe` the text of an error with what it is wrapped
-- in, or without. A second `End` of a span does nothing and is left out.
use open_research_agent.Base.{
  ℕ, [], ◌∷◌, Bool, true, false, some, none, Option, String, str_eq, if◌then◌else◌, ◌==◌, length,
  codes, Float64, FloatOps, Instant,
}
use open_research_agent.Domain.{Bytes}
use open_research_agent.Config.{Config}
use open_research_agent.Llm.{
  OllamaClient, Transport, Reply, reply, no_reply, new_ollama_client, check_health,
}
use open_research_agent.Graph.{ResearchGraph, Setup, built, not_built, new_research_graph}
use open_research_agent.Observability.{
  phrase_of, phrase, error_recorded, span_ended, Observations, Observed, Metrics, MetricsSetup,
  metrics_ready, metrics_failed, metrics_panicked, emit, with_metrics, timed_metrics, start_span,
  record_research_request, record_research_complete, Sdk, TelemetryConfig, Telemetry,
  TelemetrySetup, TelemetryError, telemetry_ready, telemetry_failed, new_telemetry, new_metrics,
}
use open_research_agent.Program.{
  Formats, Finished, printed, run_failed, run_panicked, RunError, no_input, api_not_implemented,
  unhealthy, graph_not_built, research_query, ollama_options, workflow_config,
}

unfoldable pub get_mode : Bool → String
get_mode api_mode = if api_mode then "api" else "cli"

unfoldable pub get_environment : (String → String) → String
get_environment env =
    let value = env "ENVIRONMENT" in if str_eq value "" then "development" else value

-- The configuration of the telemetry that `initObservability` makes.
unfoldable pub telemetry_config : (String → String) → String → Config → TelemetryConfig
unfolding get_environment
telemetry_config env version cfg = record {
  service_name = "open-research-agent";
  service_version = version;
  environment = get_environment env;
  otlp_endpoint = cfg.observability.tracing.endpoint;
  prometheus_port = cfg.observability.metrics.port;
  sampling_rate = cfg.observability.tracing.sampling_rate;
  enable_tracing = cfg.observability.tracing.enabled;
  enable_metrics = cfg.observability.metrics.enabled;
  enable_logging = true;
}

-- The telemetry, with the metrics when they are enabled.
pub data Initialized : Type 0 where
  initialized : Telemetry → Option Metrics → Initialized
  telemetry_not_initialized : TelemetryError → Initialized
  metrics_not_initialized : Bytes → Initialized
  initialization_panicked : Initialized

abbrev pub with_created_metrics : Telemetry → MetricsSetup → Initialized
with_created_metrics t (metrics_ready m) = initialized t (some m)
with_created_metrics t (metrics_failed err) = metrics_not_initialized err
with_created_metrics t metrics_panicked = initialization_panicked

abbrev pub after_telemetry : Config → TelemetrySetup → Initialized
after_telemetry cfg (telemetry_ready t) =
    if cfg.observability.metrics.enabled
    then with_created_metrics t (new_metrics t.meter)
    else initialized t none
after_telemetry cfg (telemetry_failed err running) = telemetry_not_initialized err

unfoldable pub init_observability : Sdk → (String → String) → String → Config → Initialized
unfolding telemetry_config
init_observability sdk env version cfg =
    after_telemetry cfg (new_telemetry sdk env (some (telemetry_config env version cfg)))

-- How the process ends, and whether the telemetry was shut down.
pub record Exit : Type 0 where
  pub exit_code : ℕ
  pub shut_down : Bool
  pub observations : Observations

-- A change that is made when there are metrics.
abbrev pub if_metrics : Bool → (Observations → Observations) → Observations → Observations
if_metrics metrics change o = if metrics then change o else o

module _ (elapsed : ℕ → Float64) (describe : Bool → RunError → Bytes) (metrics : Bool) where
  -- The end of `runCLI` after the execution: the metrics, and the end of its span.
  unfoldable pub finish_cli : Finished → Observations → Observations
  unfolding record_research_complete
  finish_cli (printed report) o = emit span_ended (
      if_metrics metrics
        (timed_metrics elapsed (λ seconds. record_research_complete seconds "success")) o)
  finish_cli (run_failed err) o = emit span_ended (
      if_metrics metrics
        (timed_metrics elapsed (λ seconds. record_research_complete seconds "failed"))
        (emit (error_recorded (describe false err)) o))
  finish_cli run_panicked o = emit span_ended o

  module _ (float : FloatOps) (fmt : Formats) (transport : ℕ → Transport) where
    -- `runCLI` with a query.
    unfoldable pub observed_query :
        (ℕ → ℕ → Instant) → OllamaClient → ResearchGraph → Bytes → Observations → Observed Finished
    unfolding research_query record_research_request
    observed_query clock c graph query o =
        let outcome = research_query float fmt transport clock c graph query in
        let begun =
          start_span (codes "research_execution")
            (("request.id", phrase_of (fmt.request_id (clock 0 8)))
              ∷ ("request.query", phrase query)
              ∷ [])
            (if_metrics metrics (with_metrics (record_research_request "cli")) o) in
        if length query == 0
        then record { result = outcome; observations = o }
        else record { result = outcome; observations = finish_cli outcome begun }

    unfoldable pub observed_cli :
        (ℕ → ℕ → Instant)
        → OllamaClient
        → ResearchGraph
        → Option Bytes
        → Bytes
        → Observations
        → Observed Finished
    unfolding observed_query
    observed_cli clock c graph none query o =
        if length query == 0
        then record { result = run_failed no_input; observations = o }
        else observed_query clock c graph query o
    observed_cli clock c graph (some line) query o =
        observed_query clock c graph (if length query == 0 then fmt.trim_space line else query) o

    -- The modes; the span of the initialization ends before them, or with its error.
    unfoldable pub observed_mode :
        (ℕ → ℕ → Instant)
        → OllamaClient
        → Bool
        → Option Bytes
        → Bytes
        → Setup
        → Observations
        → Observed Finished
    unfolding observed_cli
    observed_mode clock c api_mode stdin query (not_built err) o = record {
      result = run_failed (graph_not_built err);
      observations =
          emit span_ended (emit (error_recorded (describe false (graph_not_built err))) o);
    }
    observed_mode clock c true stdin query (built graph) o = record {
      result = run_failed api_not_implemented;
      observations = emit span_ended o;
    }
    observed_mode clock c false stdin query (built graph) o =
        observed_cli clock c graph stdin query (emit span_ended o)

    -- After the health check, in its span within that of the initialization.
    unfoldable pub observed_healthy :
        Reply (Unit {0}) → (Observations → Observed Finished) → Observations → Observed Finished
    observed_healthy (reply _) next o = next (emit span_ended o)
    observed_healthy (no_reply err) next o = record {
      result = run_failed (unhealthy err);
      observations =
          emit span_ended
            (emit span_ended (emit (error_recorded (describe false (unhealthy err))) o));
    }

    -- `run` with its spans.
    unfoldable pub observed_run :
        (ℕ → ℕ → Instant)
        → Transport
        → Config
        → Bool
        → Option Bytes
        → Bytes
        → Observations
        → Observed Finished
    unfolding observed_mode observed_healthy workflow_config ollama_options new_research_graph
    observed_run clock first cfg api_mode stdin query o =
        let c =
          new_ollama_client float (fmt.base_url_of cfg.ollama.base_url) cfg.ollama.model
            (some (ollama_options cfg)) in
        observed_healthy (check_health float first c)
          (observed_mode clock c api_mode stdin query
            (new_research_graph (some (workflow_config cfg)) (some 0) (some 1)))
          (start_span (codes "ollama_health_check") []
            (start_span (codes "initialize_components") [] o))

    -- `log.Fatalf` exits at once, so that nothing deferred runs; the deferred calls run after a
    -- success and in a panic.
    unfoldable pub leave_main : Finished → Observations → Exit
    leave_main (printed report) o = record {
      exit_code = 0;
      shut_down = true;
      observations = emit span_ended o;
    }
    leave_main (run_failed err) o = record {
      exit_code = 1;
      shut_down = false;
      observations = emit (error_recorded (describe true err)) o;
    }
    leave_main run_panicked o = record {
      exit_code = 2;
      shut_down = true;
      observations = emit span_ended o;
    }

    -- `main` from its span on.
    unfoldable pub run_main :
        (ℕ → ℕ → Instant)
        → Transport
        → String
        → Config
        → Bool
        → Option Bytes
        → Bytes
        → Observations
        → Exit
    unfolding get_mode observed_run leave_main
    run_main clock first version cfg api_mode stdin query o =
        let seen = observed_run clock first cfg api_mode stdin query (
          start_span (codes "main")
            (("version", phrase_of version) ∷ ("mode", phrase_of (get_mode api_mode)) ∷ []) o) in
        leave_main seen.result seen.observations
