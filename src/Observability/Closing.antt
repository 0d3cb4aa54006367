-- ===== src/Observability/Closing.antt =====
-- Every span that a wrapper of pkg/observability/instrumentation.go starts is ended.
use open_research_agent.Base.{
  ℕ, zero, suc, ◌≡◌, refl, List, [], ◌∷◌, some, none, Option, String, Float64, codes, ◌++◌,
}
use open_research_agent.Observability.Data.{
  SpanEvent, span_started, error_recorded, status_set, attributes_set, span_ended, Observations,
  Observed, Verdict, succeeded, failed_with, panicked, Attributes, phrase_of,
}
use open_research_agent.Domain.{Bytes}
use open_research_agent.Observability.Spans.{
  start_span, within_span, LlmCall, call_answered, call_failed, call_panicked, finish_call,
  finish_llm_call, instrument_workflow_node, instrument_llm_call, instrument_tool_execution,
}

-- How many spans are open after an event; there is no number when one ends that was not started.
abbrev pub after_event : SpanEvent → Option ℕ → Option ℕ
after_event event none = none
after_event (span_started name attributes) (some n) = some (suc n)
after_event span_ended (some zero) = none
after_event span_ended (some (suc n)) = some n
after_event (error_recorded err) (some n) = some n
after_event (status_set _) (some n) = some n
after_event (attributes_set attributes) (some n) = some n

abbrev pub open_spans : List SpanEvent → Option ℕ
open_spans [] = some 0
open_spans (event ∷ older) = after_event event (open_spans older)

-- The number of open spans is `n`.
abbrev pub HasOpen : ℕ → Observations → Type 0
HasOpen n o = open_spans o.trace ≡ some n

-- What is called ends the spans that it starts, and no other.
abbrev pub Closes {ℓ} : {A : Type ℓ} → (Observations → Observed A) → Type 0
Closes fn = (n : ℕ) (o : Observations) → HasOpen n o → HasOpen n (fn o).observations

module _ (elapsed : ℕ → Float64) where
  pub finish_call-HasOpen :
      (n : ℕ) (status_key duration_key : String) (verdict : Verdict) (o : Observations)
      → HasOpen (suc n) o
      → HasOpen n (finish_call elapsed status_key duration_key verdict o)
  finish_call-HasOpen n status_key duration_key succeeded o h = rw h refl
  finish_call-HasOpen n status_key duration_key (failed_with err) o h = rw h refl
  finish_call-HasOpen n status_key duration_key panicked o h = rw h refl

  pub finish_llm_call-HasOpen :
      (n : ℕ) (call : LlmCall) (o : Observations)
      → HasOpen (suc n) o
      → HasOpen n (finish_llm_call elapsed call o)
  finish_llm_call-HasOpen n (call_answered prompt_tokens completion_tokens) o h = rw h refl
  finish_llm_call-HasOpen n (call_failed err) o h = rw h refl
  finish_llm_call-HasOpen n call_panicked o h = rw h refl

  module _ {ℓ} {A : Type ℓ} (fn : Observations → Observed A) (closes : Closes fn) where
    -- A span that the finish ends, whatever the call returned.
    pub within_span-Closes :
        (name : Bytes) (attributes : Attributes) (finish : A → Observations → Observations)
        → ((a : A) (n : ℕ) (o : Observations) → HasOpen (suc n) o → HasOpen n (finish a o))
        → Closes (within_span name attributes finish fn)
    within_span-Closes name attributes finish ends n o h =
        let inner : Observed A = fn (start_span name attributes o) in
        ends inner.result n inner.observations
          (closes (suc n) (start_span name attributes o) (rw h refl))

    pub instrument_workflow_node-Closes :
        (verdict : A → Verdict) (node_name phase : String)
        → Closes (instrument_workflow_node elapsed verdict node_name phase fn)
    unfolding instrument_workflow_node
    instrument_workflow_node-Closes verdict node_name phase =
        within_span-Closes (codes "workflow.node." ++ codes node_name)
          (("node.name", phrase_of node_name) ∷ ("phase", phrase_of phase) ∷ [])
          (λ a. finish_call elapsed "status" "duration.seconds" (verdict a))
          (λ a n o h. finish_call-HasOpen n "status" "duration.seconds" (verdict a) o h)

    pub instrument_llm_call-Closes :
        (call : A → LlmCall) (model : String) → Closes (instrument_llm_call elapsed call model fn)
    unfolding instrument_llm_call
    instrument_llm_call-Closes call model =
        within_span-Closes (codes "llm.chat")
          (("llm.model", phrase_of model) ∷ ("llm.provider", phrase_of "ollama") ∷ [])
          (λ a. finish_llm_call elapsed (call a))
          (λ a n o h. finish_llm_call-HasOpen n (call a) o h)

    pub instrument_tool_execution-Closes :
        (verdict : A → Verdict) (tool_name : String)
        → Closes (instrument_tool_execution elapsed verdict tool_name fn)
    unfolding instrument_tool_execution
    instrument_tool_execution-Closes verdict tool_name =
        within_span-Closes (codes "tool." ++ codes tool_name)
          (("tool.name", phrase_of tool_name) ∷ [])
          (λ a. finish_call elapsed "tool.status" "tool.duration_seconds" (verdict a))
          (λ a n o h. finish_call-HasOpen n "tool.status" "tool.duration_seconds" (verdict a) o h)
