-- ===== src/Observability.antt =====
-- The observability of the program, pkg/observability: its metrics, the spans around its calls, the
-- structured logger, and the setup and shutdown of the telemetry.
mod Data
mod Recording
mod Spans
mod Setup
mod Logging
pub mod Shutdown
pub mod Closing
pub mod Counters
mod Examples
pub use open_research_agent.Observability.Data.*
pub use open_research_agent.Observability.Recording.{
  Meter, MetricsSetup, metrics_ready, metrics_failed, metrics_panicked, fresh_metrics,
  no_observations, measure, completion,
}
unfoldable pub use open_research_agent.Observability.Recording.{
  new_metrics, record_research_request, record_research_complete, record_task_created,
  record_task_started, record_task_complete, record_llm_request, record_tool_execution,
}
pub use open_research_agent.Observability.Spans.{
  LlmCall, call_answered, call_failed, call_panicked, finish_call, finish_llm_call, start_span,
  within_span,
}
unfoldable pub use open_research_agent.Observability.Spans.{
  start_research_request, instrument_workflow_node, instrument_llm_call, instrument_tool_execution,
}
pub use open_research_agent.Observability.Setup.{
  noop_tracer, TelemetryConfig, Telemetry, Sdk, TelemetrySetup, TelemetryError, Provider,
  tracer_provider, meter_provider, telemetry_ready, telemetry_failed, config_of,
}
unfoldable pub use open_research_agent.Observability.Setup.{new_telemetry, shutdown}
pub use open_research_agent.Observability.Logging.{
  SpanContext, StructuredLogger, LogEntry, LogLevel, Logged, logged, log_panicked,
}
unfoldable pub use open_research_agent.Observability.Logging.{
  new_structured_logger, log, debug, info, warn, error,
}
