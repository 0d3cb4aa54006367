-- ===== src/Llm/Instrumented.antt =====
-- The client of the language model with observability, pkg/llm/instrumented.go, around any client. A
-- duration is the n-th that is measured, in seconds; the tokens are Go `int`s.
use open_research_agent.Base.{
  ℕ, suc, List, [], ◌∷◌, Bool, ℤ, pos, ◌+ℤ◌, int64, some, none, Option, String, if◌then◌else◌,
  length, codes, Float64,
}
use open_research_agent.Domain.{Bytes, ChatOptions, Message, ToolCall}
use open_research_agent.Worker.{TokenUsage, ChatOutcome, answered, chat_failed, chat_panicked}
use open_research_agent.Observability.{
  Attributes, phrase_of, whole, fraction, error_recorded, status_set, attributes_set, span_ended,
  ok_status, error_status, Observations, Observed, emit, timed_metrics, start_span, within_span,
  record_llm_request, new_metrics, MetricsSetup, Telemetry, metrics_ready, metrics_failed,
  metrics_panicked,
}

-- The client inside is an argument of each operation.
pub record InstrumentedLlmClient : Type 0 where
  pub model : String

pub data InstrumentedSetup : Type 0 where
  instrumented : InstrumentedLlmClient → InstrumentedSetup
  client_is_required telemetry_is_required : InstrumentedSetup
  metrics_not_created : Bytes → InstrumentedSetup
  setup_panicked : InstrumentedSetup

abbrev pub with_created : String → MetricsSetup → InstrumentedSetup
with_created model (metrics_ready metrics) = instrumented (record { model = model })
with_created model (metrics_failed err) = metrics_not_created err
with_created model metrics_panicked = setup_panicked

-- The client by a number, nil or not, and the telemetry, nil or not.
unfoldable pub new_instrumented_llm_client :
    Option ℕ → Option Telemetry → String → InstrumentedSetup
new_instrumented_llm_client none telemetry model = client_is_required
new_instrumented_llm_client (some client) none model = telemetry_is_required
new_instrumented_llm_client (some client) (some telemetry) model =
    with_created model (new_metrics telemetry.meter)

-- `ChatStreamResponse`, the error by its text.
pub record ChatStreamResponse : Type 0 where
  pub content : Bytes
  pub tool_call : Option ToolCall
  pub usage : Option TokenUsage
  pub finished : Bool
  pub error : Option String

-- What opening a stream gives: all that its channel will carry before it is closed, or an error.
pub data StreamOutcome : Type 0 where
  streaming : List ChatStreamResponse → StreamOutcome
  stream_failed : String → StreamOutcome
  stream_panicked : StreamOutcome

pub data EmbedOutcome : Type 0 where
  embedded : List Float64 → EmbedOutcome
  embed_failed : String → EmbedOutcome
  embed_panicked : EmbedOutcome

abbrev pub failed_call : String → Observations → Observations
failed_call err o =
    emit (status_set (error_status (codes err))) (emit (error_recorded (codes err)) o)

module _ (elapsed : ℕ → Float64) (c : InstrumentedLlmClient) where
  -- One more duration is measured, also when its value is not used.
  abbrev pub measured : Observations → Observations
  measured o = record o { timed = suc o.timed }

  abbrev pub finish_chat : ChatOutcome → Observations → Observations
  finish_chat (answered response) o = emit span_ended (
      timed_metrics elapsed
        (λ seconds.
          record_llm_request c.model response.usage.prompt_tokens response.usage.completion_tokens
            seconds)
        (emit
          (attributes_set (
            ("llm.prompt_tokens", whole response.usage.prompt_tokens)
            ∷ ("llm.completion_tokens", whole response.usage.completion_tokens)
            ∷ ("llm.total_tokens", whole response.usage.total_tokens)
            ∷ ("llm.finish_reason", phrase_of response.finish_reason)
            ∷ []))
          (emit (status_set ok_status) o)))
  finish_chat (chat_failed err) o = emit span_ended (failed_call err (measured o))
  finish_chat chat_panicked o = emit span_ended o

  -- `Chat`, around the outcome of the client inside.
  unfoldable pub instrumented_chat :
      (List Message → ChatOptions → ChatOutcome)
      → List Message
      → ChatOptions
      → Observations
      → Observed ChatOutcome
  instrumented_chat client messages opts =
      within_span (codes "llm.chat")
        (("llm.model", phrase_of c.model)
          ∷ ("llm.provider", phrase_of "ollama")
          ∷ ("llm.temperature", fraction opts.temperature)
          ∷ ("llm.max_tokens", whole opts.max_tokens)
          ∷ ("llm.message_count", whole (pos (length messages)))
          ∷ [])
        finish_chat (λ o. record { result = client messages opts; observations = o })

  abbrev pub prompt_of : Option TokenUsage → ℤ
  prompt_of none = pos 0
  prompt_of (some usage) = usage.prompt_tokens

  abbrev pub completion_of : Option TokenUsage → ℤ
  completion_of none = pos 0
  completion_of (some usage) = usage.completion_tokens

  -- After a response that is done: the status, the totals so far and the metrics.
  abbrev pub finish_response : ℤ → ℤ → Observations → Observations
  finish_response prompt_tokens completion_tokens o =
      timed_metrics elapsed
        (λ seconds. record_llm_request c.model prompt_tokens completion_tokens seconds)
        (emit
          (attributes_set (
            ("llm.prompt_tokens", whole prompt_tokens)
            ∷ ("llm.completion_tokens", whole completion_tokens)
            ∷ ("llm.total_tokens", whole (int64 (prompt_tokens +ℤ completion_tokens)))
            ∷ []))
          (emit (status_set ok_status) o))

  abbrev pub forward_first :
      ChatStreamResponse → Observed (List ChatStreamResponse) → Observed (List ChatStreamResponse)
  forward_first response rest = record {
    result = response ∷ rest.result;
    observations = rest.observations;
  }

  -- The goroutine of `Stream`, by the totals so far, when the caller reads all that it sends. It
  -- stops at the first error; a done response does not stop it.
  unfoldable pub wrap_stream :
      ℤ → ℤ → List ChatStreamResponse → Observations → Observed (List ChatStreamResponse)
  wrap_stream prompts completions [] o = record { result = []; observations = emit span_ended o }
  wrap_stream prompts completions (response ∷ responses) o =
      let p = int64 (prompts +ℤ prompt_of response.usage) in
      let q = int64 (completions +ℤ completion_of response.usage) in
      let rest =
        wrap_stream p q responses (if response.finished then finish_response p q o else o) in
      forward_first response (elim response.error [
        | none ↦ rest
        | some err ↦ record { result = []; observations = emit span_ended (failed_call err o) }
      ])

  abbrev pub after_open : StreamOutcome → Observations → Observed StreamOutcome
  after_open (streaming responses) o =
      let wrapped = wrap_stream (pos 0) (pos 0) responses o in
      record { result = streaming wrapped.result; observations = wrapped.observations }
  after_open (stream_failed err) o = record {
    result = stream_failed err;
    observations = emit span_ended (failed_call err o);
  }
  after_open stream_panicked o = record { result = stream_panicked; observations = o }

  abbrev pub stream_attributes : List Message → ChatOptions → Attributes
  stream_attributes messages opts =
      ("llm.model", phrase_of c.model)
      ∷ ("llm.provider", phrase_of "ollama")
      ∷ ("llm.temperature", fraction opts.temperature)
      ∷ ("llm.message_count", whole (pos (length messages)))
      ∷ []

  -- `Stream`; a panic of the client inside leaves its span open, which no `defer` ends.
  unfoldable pub instrumented_stream :
      (List Message → ChatOptions → StreamOutcome)
      → List Message
      → ChatOptions
      → Observations
      → Observed StreamOutcome
  instrumented_stream client messages opts o =
      after_open (client messages opts)
        (start_span (codes "llm.stream") (stream_attributes messages opts) o)

  abbrev pub finish_embed : EmbedOutcome → Observations → Observations
  finish_embed (embedded embeddings) o = emit span_ended (
      emit (attributes_set (("llm.embedding_dimensions", whole (pos (length embeddings))) ∷ []))
        (emit (status_set ok_status) o))
  finish_embed (embed_failed err) o = emit span_ended (failed_call err o)
  finish_embed embed_panicked o = emit span_ended o

  unfoldable pub instrumented_embed :
      (Bytes → EmbedOutcome) → Bytes → Observations → Observed EmbedOutcome
  instrumented_embed client prompt =
      within_span (codes "llm.embed")
        (("llm.model", phrase_of c.model)
          ∷ ("llm.provider", phrase_of "ollama")
          ∷ ("llm.input_length", whole (pos (length prompt)))
          ∷ [])
        finish_embed (λ o. record { result = client prompt; observations = o })
