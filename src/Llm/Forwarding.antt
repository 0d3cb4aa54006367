-- ===== src/Llm/Forwarding.antt =====
-- The stream of the instrumented client around the stream of the Ollama client, pkg/llm.
use open_research_agent.Base.{
  ℕ, suc, ◌≡◌, refl, sym, ap, List, [], ◌∷◌, map, Bool, true, false, ◌&&◌, pos, ◌+ℤ◌, int64, arith,
  some, none, Option, String, if◌then◌else◌, is_none, Float64, FloatOps, codes,
}
use open_research_agent.Domain.{Bytes, Message, ChatOptions}
use open_research_agent.Observability.{start_span, record_llm_request, Observations, Observed}
use open_research_agent.Observability.Closing.{HasOpen}
use open_research_agent.Observability.Counters.{requests_of, tokens_of, zero-+ℤ}
use open_research_agent.Llm.{
  OllamaClient, Transport, Reply, reply, no_reply, LlmError, Piece, stream_chat,
}
use open_research_agent.Llm.Streams.{stream_chat-Streams, IsStream, Streams}
use open_research_agent.Llm.Instrumented.{
  instrumented_stream, InstrumentedLlmClient, stream_attributes, ChatStreamResponse, StreamOutcome,
  streaming, wrap_stream,
}

-- What an instrumented call of a stream leaves behind: the caller gets every response, the span is
-- ended, one request is counted for a stream that completes, and no token.
pub record Forwards {ℓ} {A : Type ℓ} (sent : A) (completes : Bool) (n : ℕ) (o : Observations)
    (seen : Observed A) : Type ℓ where
  pub responses_kept : seen.result ≡ sent
  pub span_closed : HasOpen n seen.observations
  pub requests_counted :
      requests_of seen.observations.metrics
      ≡ (if completes then pos 1 else pos 0) +ℤ requests_of o.metrics
  pub tokens_counted : tokens_of seen.observations.metrics ≡ tokens_of o.metrics

-- The last piece is done and holds no error.
abbrev pub completes : List Piece → Bool
completes [] = false
completes (piece ∷ []) = piece.finished && is_none piece.error
completes (piece ∷ next ∷ pieces) = completes (next ∷ pieces)

abbrev pub response_of : (LlmError → String) → Piece → ChatStreamResponse
response_of error_text piece = record {
  content = piece.content;
  tool_call = none;
  usage = none;
  finished = piece.finished;
  error = elim piece.error [ none ↦ none | some err ↦ some (error_text err) ];
}

module _ (elapsed : ℕ → Float64) (error_text : LlmError → String) (c : InstrumentedLlmClient) where
  abbrev piece_of : Bytes → Bool → Option LlmError → Piece
  piece_of content finished error = record { content = content; finished = finished; error = error }

  -- The goroutine over the pieces of a stream.
  abbrev wrapped : List Piece → Observations → Observed (List ChatStreamResponse)
  unfolding wrap_stream
  wrapped pieces o = wrap_stream elapsed c (pos 0) (pos 0) (map (response_of error_text) pieces) o

  abbrev ForwardsAll : ℕ → Observations → List Piece → Type 0
  ForwardsAll n o pieces =
      Forwards (map (response_of error_text) pieces) (completes pieces) n o (wrapped pieces o)

  last-Forwards :
      (n : ℕ) (o : Observations) (content : Bytes) (finished : Bool) (error : Option LlmError)
      → HasOpen (suc n) o
      → ForwardsAll n o (piece_of content finished error ∷ [])
  unfolding wrap_stream record_llm_request int64
  last-Forwards n o content true none h = record {
    responses_kept = refl;
    span_closed = rw h refl;
    requests_counted = refl;
    tokens_counted = zero-+ℤ (tokens_of o.metrics);
  }
  last-Forwards n o content false none h = record {
    responses_kept = refl;
    span_closed = rw h refl;
    requests_counted = sym (zero-+ℤ (requests_of o.metrics));
    tokens_counted = refl;
  }
  last-Forwards n o content true (some err) h = record {
    responses_kept = refl;
    span_closed = rw h refl;
    requests_counted = sym (zero-+ℤ (requests_of o.metrics));
    tokens_counted = refl;
  }
  last-Forwards n o content false (some err) h = record {
    responses_kept = refl;
    span_closed = rw h refl;
    requests_counted = sym (zero-+ℤ (requests_of o.metrics));
    tokens_counted = refl;
  }

  step-Forwards :
      (n : ℕ) (o : Observations) (content : Bytes) (finished : Bool) (error : Option LlmError)
      (next : Piece) (pieces : List Piece)
      → finished ≡ false
      → error ≡ none
      → ForwardsAll n o (next ∷ pieces)
      → ForwardsAll n o (piece_of content finished error ∷ next ∷ pieces)
  unfolding wrap_stream int64
  step-Forwards n o content true error next pieces f e all = ground arith
  step-Forwards n o content false (some err) next pieces f e all = ground arith
  step-Forwards n o content false none next pieces f e all = record {
    responses_kept =
        ap (λ responses. response_of error_text (piece_of content false none) ∷ responses)
          all.responses_kept;
    span_closed = all.span_closed;
    requests_counted = all.requests_counted;
    tokens_counted = all.tokens_counted;
  }

  wrap_stream-Forwards :
      (pieces : List Piece) (n : ℕ) (o : Observations)
      → IsStream pieces
      → HasOpen (suc n) o
      → ForwardsAll n o pieces
  unfolding wrap_stream
  wrap_stream-Forwards [] n o s h = record {
    responses_kept = refl;
    span_closed = rw h refl;
    requests_counted = sym (zero-+ℤ (requests_of o.metrics));
    tokens_counted = refl;
  }
  wrap_stream-Forwards (piece ∷ []) n o s h =
      last-Forwards n o piece.content piece.finished piece.error h
  wrap_stream-Forwards (piece ∷ next ∷ pieces) n o (f, e, s) h =
      step-Forwards n o piece.content piece.finished piece.error next pieces f e
        (wrap_stream-Forwards (next ∷ pieces) n o s h)

module _ (float : FloatOps) (t : Transport) where
  Streams-IsStream :
      (r : Reply Bytes) (pieces : List Piece) → Streams float t r pieces → IsStream pieces
  Streams-IsStream (reply body) pieces (s, p, begun) = s
  Streams-IsStream (no_reply err) pieces e = rw e (λ h. refl)

  -- The stream of the Ollama client as the client inside.
  abbrev pub ollama_stream :
      (LlmError → String) → OllamaClient → List Message → ChatOptions → StreamOutcome
  ollama_stream error_text client messages opts =
      streaming (map (response_of error_text) (stream_chat float t client messages opts))

  -- The instrumented client passes the whole stream of the Ollama client on, every piece and error as
  -- it comes, and ends the span that it starts. It counts one request when the last piece is done
  -- without an error and none otherwise, and whatever the stream, it counts no token.
  pub instrumented_stream-ollama_stream :
      (elapsed : ℕ → Float64) (error_text : LlmError → String) (c : InstrumentedLlmClient)
      (client : OllamaClient) (messages : List Message) (opts : ChatOptions) (n : ℕ)
      (o : Observations)
      → HasOpen n o
      → Forwards
          (ollama_stream error_text client messages opts)
          (completes (stream_chat float t client messages opts))
          n
          o
          (instrumented_stream elapsed c (ollama_stream error_text client) messages opts o)
  unfolding instrumented_stream wrap_stream
  instrumented_stream-ollama_stream elapsed error_text c client messages opts n o h =
      let pieces = stream_chat float t client messages opts in
      let all =
        wrap_stream-Forwards elapsed error_text c pieces n
          (start_span (codes "llm.stream") (stream_attributes elapsed c messages opts) o)
          (Streams-IsStream _ pieces (stream_chat-Streams float t client messages opts))
          (rw h refl) in
      record {
        responses_kept = ap streaming all.responses_kept;
        span_closed = all.span_closed;
        requests_counted = all.requests_counted;
        tokens_counted = all.tokens_counted;
      }
