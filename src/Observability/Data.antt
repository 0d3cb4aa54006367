-- ===== src/Observability/Data.antt =====
-- Spans, attributes and measurements, pkg/observability: what the OpenTelemetry SDK is told. The SDK
-- itself is a library: a span is the list of the calls made on it, and an instrument the list of the
-- values given to it.
use open_research_agent.Base.{ℕ, suc, List, ◌∷◌, ℤ, String, codes, Float64}
use open_research_agent.Domain.{Bytes}

pub data AttributeValue : Type 0 where
  phrase : Bytes → AttributeValue
  whole : ℤ → AttributeValue
  fraction : Float64 → AttributeValue

abbrev pub Attributes : Type 0
Attributes = List (String × AttributeValue)

abbrev pub phrase_of : String → AttributeValue
phrase_of s = phrase (codes s)

-- `codes.Ok`, and `codes.Error` with its description.
pub data SpanStatus : Type 0 where
  ok_status : SpanStatus
  error_status : Bytes → SpanStatus

pub data SpanEvent : Type 0 where
  span_started : Bytes → Attributes → SpanEvent
  error_recorded : Bytes → SpanEvent
  status_set : SpanStatus → SpanEvent
  attributes_set : Attributes → SpanEvent
  span_ended : SpanEvent

pub data InstrumentKind : Type 0 where
  int64_counter float64_histogram int64_observable_gauge : InstrumentKind

-- A value given to a counter or a histogram, which is known by its name.
pub data Measurement : Type 0 where
  added : String → ℤ → Attributes → Measurement
  observed_value : String → Float64 → Attributes → Measurement

-- The latest measurement stands first.
pub record Metrics : Type 0 where
  pub measurements : List Measurement
  pub active_research_count : ℤ
  pub active_task_count : ℤ
  pub queued_task_count : ℤ

-- What has been observed: the events of the spans, the latest first, the metrics, and how many
-- durations have been measured.
pub record Observations : Type 0 where
  pub trace : List SpanEvent
  pub metrics : Metrics
  pub timed : ℕ

pub record Observed {ℓ} (A : Type ℓ) : Type ℓ where
  pub result : A
  pub observations : Observations

-- How an instrumented call ends.
pub data Verdict : Type 0 where
  succeeded : Verdict
  failed_with : Bytes → Verdict
  panicked : Verdict

abbrev pub emit : SpanEvent → Observations → Observations
emit event o = record o { trace = event ∷ o.trace }

abbrev pub with_metrics : (Metrics → Metrics) → Observations → Observations
with_metrics change o = record o { metrics = change o.metrics }

-- The metrics of a call that measures one duration.
abbrev pub timed_metrics :
    (ℕ → Float64) → (Float64 → Metrics → Metrics) → Observations → Observations
timed_metrics elapsed change o = record o {
  metrics = change (elapsed o.timed) o.metrics;
  timed = suc o.timed;
}
