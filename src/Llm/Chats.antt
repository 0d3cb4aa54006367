-- ===== src/Llm/Chats.antt =====
-- A chat through the instrumented client, pkg/llm/instrumented.go.
use open_research_agent.Base.{ℕ, suc, ◌≡◌, refl, List, pos, ◌+ℤ◌, int64, Float64, codes}
use open_research_agent.Observability.{start_span, Attributes, Observations, record_llm_request}
use open_research_agent.Domain.{Bytes, Message, ChatOptions}
use open_research_agent.Worker.{ChatOutcome, answered, chat_failed, chat_panicked}
use open_research_agent.Observability.Closing.{HasOpen}
use open_research_agent.Observability.Counters.{requests_of, tokens_of}
use open_research_agent.Llm.Instrumented.{InstrumentedLlmClient, finish_chat, instrumented_chat}

-- What the metrics count of a chat: an answer with its tokens, and nothing otherwise.
abbrev pub Counts : ChatOutcome → Observations → Observations → Type 0
Counts (answered response) o seen =
    (requests_of seen.metrics ≡ pos 1 +ℤ requests_of o.metrics)
    × (tokens_of seen.metrics
        ≡ int64 (response.usage.prompt_tokens +ℤ response.usage.completion_tokens)
          +ℤ tokens_of o.metrics)
Counts _ o seen = seen.metrics ≡ o.metrics

module _ (elapsed : ℕ → Float64) (c : InstrumentedLlmClient) where
  finish_chat-HasOpen :
      (outcome : ChatOutcome) (n : ℕ) (o : Observations)
      → HasOpen (suc n) o
      → HasOpen n (finish_chat elapsed c outcome o)
  unfolding record_llm_request
  finish_chat-HasOpen (answered response) n o h = rw h refl
  finish_chat-HasOpen (chat_failed err) n o h = rw h refl
  finish_chat-HasOpen chat_panicked n o h = rw h refl

  finish_chat-Counts :
      (outcome : ChatOutcome) (name : Bytes) (attributes : Attributes) (o : Observations)
      → Counts outcome o (finish_chat elapsed c outcome (start_span name attributes o))
  unfolding record_llm_request
  finish_chat-Counts (answered response) name attributes o = (refl, refl)
  finish_chat-Counts (chat_failed err) name attributes o = refl
  finish_chat-Counts chat_panicked name attributes o = refl

  -- A chat comes to what it comes to without observability, and ends its span, also when the client
  -- fails or panics; an answer is counted as one request with its tokens, a failure is not counted.
  instrumented_chat-Counts :
      (client : List Message → ChatOptions → ChatOutcome) (messages : List Message)
      (opts : ChatOptions) (n : ℕ) (o : Observations)
      → HasOpen n o
      → let seen = instrumented_chat elapsed c client messages opts o in
        (seen.result ≡ client messages opts)
        × HasOpen n seen.observations
        × Counts (client messages opts) o seen.observations
  unfolding instrumented_chat
  instrumented_chat-Counts client messages opts n o h = (
    refl,
    finish_chat-HasOpen (client messages opts) n _ (rw h refl),
    finish_chat-Counts (client messages opts) (codes "llm.chat") _ o,
  )
