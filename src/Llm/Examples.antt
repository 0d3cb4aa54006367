-- ===== src/Llm/Examples.antt =====
-- The client on concrete exchanges.
use open_research_agent.Base.{
  ◌+◌, ◌-◌, ◌*◌, ◌/◌, [], ◌∷◌, Bool, true, false, pos, pos_part, none, String, ltb, codes, FloatOps,
  float_zero, minute, float_0_7, refl,
}
use open_research_agent.Observability.{no_observations}
use open_research_agent.Llm.Instrumented.{InstrumentedLlmClient, instrumented_stream}
use open_research_agent.Llm.Forwarding.{
  Forwards, completes, ollama_stream, instrumented_stream-ollama_stream,
}
use open_research_agent.Llm.{
  LlmError, OllamaClient, OllamaStreamResponse, Transport, coded, not_coded, responded, exchange,
  chat_body, build_request, stream_chat,
}
use open_research_agent.Domain.{ChatOptions}
use open_research_agent.Llm.Streams.{Streams, stream_chat-Streams}

abbrev whole : FloatOps
whole = record {
  add = λ a b. a + b;
  sub = λ a b. a - b;
  mul = λ a b. a * b;
  div = λ a b. a / b;
  lt = ltb;
  of_int = pos_part;
}

abbrev chunk_of : String → Bool → OllamaStreamResponse
chunk_of text finished = record {
  message = record { role = "assistant"; content = codes text };
  finished = finished;
}

-- A service that sends two chunks, the second of them done, and a broken third.
abbrev service : Transport
service = record {
  marshal = λ body. coded [];
  new_request = λ url. none;
  post = λ url body. responded 200 [];
  get = λ url. responded 200 [];
  decode_response = λ body. not_coded "unexpected end of JSON input";
  decode_chunks = λ body.
      coded (chunk_of "Go is" false)
      ∷ coded (chunk_of " a language" true)
      ∷ not_coded "invalid character"
      ∷ [];
  decode_embedding = λ body. coded [];
  decode_models = λ body. coded [];
}

abbrev client : OllamaClient
client = record {
  base_url = codes "http://localhost:11434";
  model = "llama3.2";
  client_timeout = 2 * minute;
  options = record {
    temperature = float_0_7;
    max_tokens = pos 4096;
    top_p = float_zero;
    top_k = pos 0;
    system_prompt = "";
    timeout = 2 * minute;
  };
}

abbrev no_options : ChatOptions
no_options = record {
  model = "";
  temperature = float_zero;
  max_tokens = pos 0;
  top_p = float_zero;
  top_k = pos 0;
  stop = [];
}

stream_chat-Streams_example :
    Streams whole service
      (exchange whole service
        (codes "http://localhost:11434/api/chat")
        (chat_body (build_request whole client [] no_options true)))
      (stream_chat whole service client [] no_options)
stream_chat-Streams_example = stream_chat-Streams whole service client [] no_options

abbrev error_text : LlmError → String
error_text err = "error"

abbrev observed_client : InstrumentedLlmClient
observed_client = record { model = "llama3.2" }

instrumented_stream-ollama_stream_example :
    Forwards
      (ollama_stream whole service error_text client [] no_options)
      (completes (stream_chat whole service client [] no_options))
      0
      no_observations
      (instrumented_stream
        (λ k. float_zero)
        observed_client
        (ollama_stream whole service error_text client)
        []
        no_options
        no_observations)
instrumented_stream-ollama_stream_example =
    instrumented_stream-ollama_stream whole service (λ k. float_zero) error_text observed_client
      client [] no_options 0 no_observations refl
