-- ===== src/Observability/Recording.antt =====
-- The metrics of the application, pkg/observability/metrics.go. A duration comes as what
-- `duration.Seconds()` makes of it. The counts behind the gauges are `int64`s.
use open_research_agent.Base.{
  List, [], ◌∷◌, Bool, not, ℤ, pos, ◌+ℤ◌, ◌-ℤ◌, int64, some, none, Option, String, str_eq,
  if◌then◌else◌, Float64,
}
use open_research_agent.Observability.Data.{
  phrase_of, InstrumentKind, int64_counter, float64_histogram, int64_observable_gauge, Measurement,
  added, observed_value, Metrics, Observations,
}
use open_research_agent.Domain.{Bytes}

-- What creating an instrument gives: an error, or none.
abbrev pub Meter : Type 0
Meter = InstrumentKind → String → Option Bytes

pub data MetricsSetup : Type 0 where
  metrics_ready : Metrics → MetricsSetup
  metrics_failed : Bytes → MetricsSetup
  metrics_panicked : MetricsSetup

-- The instruments, in the order in which `NewMetrics` creates them.
abbrev pub instruments : List (InstrumentKind × String)
instruments =
    (int64_counter, "research_requests_total")
    ∷ (int64_counter, "tasks_created_total")
    ∷ (int64_counter, "tasks_completed_total")
    ∷ (int64_counter, "tasks_failed_total")
    ∷ (int64_counter, "llm_requests_total")
    ∷ (int64_counter, "llm_tokens_used_total")
    ∷ (int64_counter, "tool_executions_total")
    ∷ (float64_histogram, "research_duration_seconds")
    ∷ (float64_histogram, "task_duration_seconds")
    ∷ (float64_histogram, "llm_request_duration_seconds")
    ∷ (float64_histogram, "tool_execution_duration_seconds")
    ∷ (int64_observable_gauge, "active_research_requests")
    ∷ (int64_observable_gauge, "active_tasks")
    ∷ (int64_observable_gauge, "queued_tasks")
    ∷ []

abbrev pub fresh_metrics : Metrics
fresh_metrics = record {
  measurements = [];
  active_research_count = pos 0;
  active_task_count = pos 0;
  queued_task_count = pos 0;
}

abbrev pub create_all : Meter → List (InstrumentKind × String) → MetricsSetup
create_all meter [] = metrics_ready fresh_metrics
create_all meter ((kind, name) ∷ others) =
    let rest = create_all meter others in
    elim (meter kind name) [ none ↦ rest | some err ↦ metrics_failed err ]

-- A nil meter has no methods to call.
unfoldable pub new_metrics : Option Meter → MetricsSetup
new_metrics none = metrics_panicked
new_metrics (some meter) = create_all meter instruments

abbrev pub measure : Measurement → Metrics → Metrics
measure x m = record m { measurements = x ∷ m.measurements }

unfoldable pub record_research_request : String → Metrics → Metrics
record_research_request request_type m =
    record (measure
      (added "research_requests_total" (pos 1) (("type", phrase_of request_type) ∷ [])) m) {
        active_research_count = int64 (m.active_research_count +ℤ pos 1);
      }

unfoldable pub record_research_complete : Float64 → String → Metrics → Metrics
record_research_complete seconds status m =
    record (measure
      (observed_value "research_duration_seconds" seconds (("status", phrase_of status) ∷ [])) m) {
        active_research_count = int64 (m.active_research_count -ℤ pos 1);
      }

unfoldable pub record_task_created : String → Metrics → Metrics
record_task_created task_type m =
    record (measure (added "tasks_created_total" (pos 1) (("type", phrase_of task_type) ∷ [])) m) {
      queued_task_count = int64 (m.queued_task_count +ℤ pos 1);
    }

unfoldable pub record_task_started : Metrics → Metrics
record_task_started m = record m {
  queued_task_count = int64 (m.queued_task_count -ℤ pos 1);
  active_task_count = int64 (m.active_task_count +ℤ pos 1);
}

abbrev pub completion : String → Measurement
completion status =
    if str_eq status "success"
    then added "tasks_completed_total" (pos 1) []
    else added "tasks_failed_total" (pos 1) (("reason", phrase_of status) ∷ [])

unfoldable pub record_task_complete : Float64 → String → Metrics → Metrics
record_task_complete seconds status m =
    record (measure
      (observed_value "task_duration_seconds" seconds (("status", phrase_of status) ∷ []))
      (measure (completion status) m)) { active_task_count = int64 (m.active_task_count -ℤ pos 1) }

unfoldable pub record_llm_request : String → ℤ → ℤ → Float64 → Metrics → Metrics
record_llm_request model prompt_tokens completion_tokens seconds m =
    measure
      (observed_value "llm_request_duration_seconds" seconds (("model", phrase_of model) ∷ []))
      (measure
        (added "llm_tokens_used_total" (int64 (prompt_tokens +ℤ completion_tokens))
          (("model", phrase_of model) ∷ ("type", phrase_of "total") ∷ []))
        (measure (added "llm_requests_total" (pos 1) (("model", phrase_of model) ∷ [])) m))

unfoldable pub record_tool_execution : String → Float64 → Bool → Metrics → Metrics
record_tool_execution tool_name seconds success m =
    let status = if not success then "failure" else "success" in
    let attributes = ("tool", phrase_of tool_name) ∷ ("status", phrase_of status) ∷ [] in
    measure (observed_value "tool_execution_duration_seconds" seconds attributes)
      (measure (added "tool_executions_total" (pos 1) attributes) m)

-- `GetActiveResearchCount`, `GetActiveTaskCount` and `GetQueuedTaskCount`, and what the callbacks of
-- the three gauges observe.
abbrev pub get_active_research_count : Metrics → ℤ
get_active_research_count m = m.active_research_count

abbrev pub get_active_task_count : Metrics → ℤ
get_active_task_count m = m.active_task_count

abbrev pub get_queued_task_count : Metrics → ℤ
get_queued_task_count m = m.queued_task_count

abbrev pub observe_gauges : Metrics → List (String × ℤ)
observe_gauges m =
    ("active_research_requests", m.active_research_count)
    ∷ ("active_tasks", m.active_task_count)
    ∷ ("queued_tasks", m.queued_task_count)
    ∷ []

-- Before anything is observed.
abbrev pub no_observations : Observations
no_observations = record { trace = []; metrics = fresh_metrics; timed = 0 }
