-- ===== src/Observability/Spans.antt =====
-- The wrappers that put a call in a span, pkg/observability/instrumentation.go. What is wrapped makes
-- observations of its own, so that spans nest. `elapsed n` is the n-th duration measured, in seconds.
use open_research_agent.Base.{
  ℕ, suc, [], ◌∷◌, ◌++◌, ℤ, pos, ◌+ℤ◌, int64, String, if◌then◌else◌, ltb, length, codes, Float64,
}
use open_research_agent.Observability.Data.{
  Attributes, whole, fraction, phrase_of, span_started, error_recorded, status_set, attributes_set,
  span_ended, ok_status, error_status, Observations, Observed, Verdict, succeeded, failed_with,
  panicked, emit,
}
use open_research_agent.Domain.{Bytes}

-- `StartSpan`.
abbrev pub start_span : Bytes → Attributes → Observations → Observations
start_span name attributes o = emit (span_started name attributes) o

unfoldable pub determine_research_type : Bytes → String
determine_research_type query =
    if ltb (length query) 50
    then "simple"
    else if ltb (length query) 200
    then "moderate"
    else "complex"

unfoldable pub estimate_complexity : Bytes → String
estimate_complexity query =
    if ltb (length query) 50 then "low" else if ltb (length query) 200 then "medium" else "high"

-- The root span of a request, which the caller ends.
unfoldable pub start_research_request : String → String → Bytes → Observations → Observations
unfolding determine_research_type estimate_complexity
start_research_request request_id user_id query o =
    emit
      (attributes_set (
        ("request.id", phrase_of request_id)
        ∷ ("research.type", phrase_of (determine_research_type query))
        ∷ ("complexity", phrase_of (estimate_complexity query))
        ∷ []))
      (start_span (codes "research.request")
        (("request.id", phrase_of request_id)
          ∷ ("user.id", phrase_of user_id)
          ∷ ("query.length", whole (pos (length query)))
          ∷ ("model", phrase_of "llama3.2")
          ∷ [])
        o)

-- What a model's call returns: the tokens of the prompt and of the completion, or an error.
pub data LlmCall : Type 0 where
  call_answered : ℤ → ℤ → LlmCall
  call_failed : Bytes → LlmCall
  call_panicked : LlmCall

module _ {ℓ} {A : Type ℓ} where
  -- What the wrappers share: the call stands between the start of its span and its finish.
  abbrev pub within_span :
      Bytes
      → Attributes
      → (A → Observations → Observations)
      → (Observations → Observed A)
      → Observations
      → Observed A
  within_span name attributes finish fn o =
      let inner : Observed A = fn (start_span name attributes o) in
      record { result = inner.result; observations = finish inner.result inner.observations }

module _ (elapsed : ℕ → Float64) where
  -- After a call under a status and a duration: a panic passes through and only ends the span.
  abbrev pub finish_call : String → String → Verdict → Observations → Observations
  finish_call status_key duration_key succeeded o = emit span_ended (
      emit
        (attributes_set
          ((status_key, phrase_of "success") ∷ (duration_key, fraction (elapsed o.timed)) ∷ []))
        (emit (status_set ok_status) (record o { timed = suc o.timed })))
  finish_call status_key duration_key (failed_with err) o = emit span_ended (
      emit
        (attributes_set
          ((status_key, phrase_of "error") ∷ (duration_key, fraction (elapsed o.timed)) ∷ []))
        (emit (status_set (error_status err))
          (emit (error_recorded err) (record o { timed = suc o.timed }))))
  finish_call status_key duration_key panicked o = emit span_ended o

  abbrev pub finish_llm_call : LlmCall → Observations → Observations
  finish_llm_call (call_answered prompt_tokens completion_tokens) o = emit span_ended (
      emit (attributes_set (("duration.seconds", fraction (elapsed o.timed)) ∷ [])) (
        emit
          (attributes_set (
            ("llm.prompt_tokens", whole prompt_tokens)
            ∷ ("llm.completion_tokens", whole completion_tokens)
            ∷ ("llm.total_tokens", whole (int64 (prompt_tokens +ℤ completion_tokens)))
            ∷ []))
          (emit (status_set ok_status) (record o { timed = suc o.timed }))))
  finish_llm_call (call_failed err) o = emit span_ended (
      emit (attributes_set (("duration.seconds", fraction (elapsed o.timed)) ∷ [])) (
        emit (status_set (error_status err))
          (emit (error_recorded err) (record o { timed = suc o.timed }))))
  finish_llm_call call_panicked o = emit span_ended o

  module _ {ℓ} {A : Type ℓ} where
    unfoldable pub instrument_workflow_node :
        (A → Verdict) → String → String → (Observations → Observed A) → Observations → Observed A
    instrument_workflow_node verdict node_name phase fn o =
        within_span (codes "workflow.node." ++ codes node_name)
          (("node.name", phrase_of node_name) ∷ ("phase", phrase_of phase) ∷ [])
          (λ a. finish_call "status" "duration.seconds" (verdict a)) fn o

    unfoldable pub instrument_llm_call :
        (A → LlmCall) → String → (Observations → Observed A) → Observations → Observed A
    instrument_llm_call call model fn o =
        within_span (codes "llm.chat")
          (("llm.model", phrase_of model) ∷ ("llm.provider", phrase_of "ollama") ∷ [])
          (λ a. finish_llm_call (call a)) fn o

    unfoldable pub instrument_tool_execution :
        (A → Verdict) → String → (Observations → Observed A) → Observations → Observed A
    instrument_tool_execution verdict tool_name fn o =
        within_span (codes "tool." ++ codes tool_name) (("tool.name", phrase_of tool_name) ∷ [])
          (λ a. finish_call "tool.status" "tool.duration_seconds" (verdict a)) fn o
