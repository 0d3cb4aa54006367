-- ===== src/Llm.antt =====
-- The client of the language model, pkg/llm/ollama.go. JSON, the making of a request and the HTTP
-- exchange itself are a parameter, the `Transport`; a body is what one exchange gives.
pub mod Streams
pub mod Instrumented
pub mod Forwarding
mod Chats
mod Examples
use open_research_agent.Base.{
  ℕ, ◌*◌, List, [], ◌∷◌, ◌++◌, map, Bool, true, false, ℤ, pos, ◌+ℤ◌, ltb_ℤ, int64, some, none,
  Option, String, if◌then◌else◌, ltb, ◌==◌, length, codes, Float64, FloatOps, float_zero, minute,
  float_0_7, float_0_9,
}
use open_research_agent.Domain.{Bytes, Message, ChatOptions}
use open_research_agent.Worker.{ChatResponse, TokenUsage, ChatOutcome, answered, chat_failed}

pub record OllamaOptions : Type 0 where
  pub temperature : Float64
  pub max_tokens : ℤ
  pub top_p : Float64
  pub top_k : ℤ
  pub system_prompt : String
  pub timeout : ℕ

-- The HTTP client has the timeout of the options.
pub record OllamaClient : Type 0 where
  pub base_url : Bytes
  pub model : String
  pub client_timeout : ℕ
  pub options : OllamaOptions

pub record OllamaMessage : Type 0 where
  pub role : String
  pub content : Bytes

-- The values of the map of options.
pub data OptionValue : Type 0 where
  number : Float64 → OptionValue
  whole_number : ℤ → OptionValue
  words : List String → OptionValue

pub record OllamaRequest : Type 0 where
  pub model : String
  pub messages : List OllamaMessage
  pub options : List (String × OptionValue)
  pub stream : Bool

pub record OllamaResponse : Type 0 where
  pub message : OllamaMessage
  pub finished : Bool
  pub total_duration : ℤ
  pub load_duration : ℤ
  pub prompt_eval_count : ℤ
  pub eval_count : ℤ
  pub eval_duration : ℤ

pub record OllamaStreamResponse : Type 0 where
  pub message : OllamaMessage
  pub finished : Bool

-- A value, or the text of an error.
pub data Coded {ℓ} (A : Type ℓ) : Type ℓ where
  coded : A → Coded A
  not_coded : String → Coded A

pub data Sent : Type 0 where
  not_sent : String → Sent
  responded : ℕ → Bytes → Sent

-- A request asks for a chat or for the embedding of a text.
pub data Body : Type 0 where
  chat_body : OllamaRequest → Body
  embedding_body : String → Bytes → Body

pub record Transport : Type 0 where
  pub marshal : Body → Coded Bytes
  pub new_request : Bytes → Option String  -- the error of a URL
  pub post : Bytes → Bytes → Sent
  pub get : Bytes → Sent
  pub decode_response : Bytes → Coded OllamaResponse
  -- What `Decode` gives up to the end of a body. A body that never ends has no value here.
  pub decode_chunks : Bytes → List (Coded OllamaStreamResponse)
  pub decode_embedding : Bytes → Coded (List Float64)
  pub decode_models : Bytes → Coded (List String)

pub data LlmError : Type 0 where
  marshal_failed request_not_created request_failed decode_failed : String → LlmError
  bad_status : ℕ → Bytes → LlmError

pub data Reply {ℓ} (A : Type ℓ) : Type ℓ where
  reply : A → Reply A
  no_reply : LlmError → Reply A

abbrev pub reply_then {ℓ κ} : {A : Type ℓ} {B : Type κ} → Reply A → (A → Reply B) → Reply B
reply_then (reply a) next = next a
reply_then (no_reply err) next = no_reply err

abbrev pub reply_of {ℓ} : {A : Type ℓ} → (String → LlmError) → Coded A → Reply A
reply_of error (coded a) = reply a
reply_of error (not_coded err) = no_reply (error err)

-- `ChatStreamResponse`, of which the client sets these fields.
pub record Piece : Type 0 where
  pub content : Bytes
  pub finished : Bool
  pub error : Option LlmError

abbrev pub error_piece : LlmError → Piece
error_piece err = record { content = []; finished = true; error = some err }

abbrev pub chunk_piece : OllamaStreamResponse → Piece
chunk_piece chunk = record {
  content = chunk.message.content;
  finished = chunk.finished;
  error = none;
}

-- The loop of `Stream` over the outcomes of `Decode`, up to the end of the body.
unfoldable pub read_chunks : List (Coded OllamaStreamResponse) → List Piece
read_chunks [] = []
read_chunks (not_coded err ∷ outcomes) = error_piece (decode_failed err) ∷ []
read_chunks (coded chunk ∷ outcomes) =
    let rest = read_chunks outcomes in chunk_piece chunk ∷ (if chunk.finished then [] else rest)

unfoldable pub new_ollama_client : FloatOps → Bytes → String → Option OllamaOptions → OllamaClient
new_ollama_client float base_url model given =
    let options : OllamaOptions = elim given [
      | none ↦ record {
        temperature = float_0_7;
        max_tokens = pos 4096;
        top_p = float_0_9;
        top_k = pos 0;
        system_prompt = "";
        timeout = 2 * minute;
      }
      | some o ↦ o
    ] in
    record {
      base_url = base_url;
      model = model;
      client_timeout = options.timeout;
      options = options;
    }

abbrev pub ollama_message : Message → OllamaMessage
ollama_message m = record { role = m.role; content = m.content }

unfoldable pub convert_messages : List Message → List OllamaMessage
convert_messages messages = map ollama_message messages

unfoldable pub determine_finish_reason : OllamaResponse → String
determine_finish_reason resp = if resp.finished then "stop" else "stop"

-- An entry of the options under a condition.
abbrev pub entry_if : Bool → String → OptionValue → List (String × OptionValue)
entry_if b name value = if b then (name, value) ∷ [] else []

module _ (float : FloatOps) where
  abbrev pub is_positive : Float64 → Bool
  is_positive x = float.lt float_zero x

  -- `buildOptions`; the keys differ, so that the order of the entries is that of the writes.
  unfoldable pub build_options : OllamaClient → ChatOptions → List (String × OptionValue)
  build_options c opts =
      (
        "temperature",
        number (if is_positive opts.temperature then opts.temperature else c.options.temperature),
      )
        ∷ (
          "num_predict",
          whole_number
              (if ltb_ℤ (pos 0) opts.max_tokens then opts.max_tokens else c.options.max_tokens),
        )
        ∷ (if is_positive opts.top_p
            then ("top_p", number opts.top_p) ∷ []
            else entry_if (is_positive c.options.top_p) "top_p" (number c.options.top_p))
      ++ (if ltb_ℤ (pos 0) opts.top_k
          then ("top_k", whole_number opts.top_k) ∷ []
          else entry_if (ltb_ℤ (pos 0) c.options.top_k) "top_k" (whole_number c.options.top_k))
      ++ entry_if (ltb 0 (length opts.stop)) "stop" (words opts.stop)

  unfoldable pub build_request : OllamaClient → List Message → ChatOptions → Bool → OllamaRequest
  unfolding convert_messages build_options
  build_request c messages opts streaming = record {
    model = c.model;
    messages = convert_messages messages;
    options = build_options c opts;
    stream = streaming;
  }

  module _ (t : Transport) where
    abbrev pub created : Bytes → Reply (Unit {0})
    created url = elim (t.new_request url) as (λ _. Reply (Unit {0})) [
      | none ↦ reply tt
      | some err ↦ no_reply (request_not_created err)
    ]

    -- The body of an exchange of status 200.
    abbrev pub accepted : Sent → Reply Bytes
    accepted (not_sent err) = no_reply (request_failed err)
    accepted (responded status body) =
        if status == 200 then reply body else no_reply (bad_status status body)

    unfoldable pub exchange : Bytes → Body → Reply Bytes
    exchange url body =
        reply_then (reply_of marshal_failed (t.marshal body))
          (λ data_sent. reply_then (created url) (λ _. accepted (t.post url data_sent)))

    abbrev pub domain_response : OllamaResponse → ChatResponse
    domain_response resp = record {
      content = resp.message.content;
      tool_calls = [];
      usage = record {
        prompt_tokens = resp.prompt_eval_count;
        completion_tokens = resp.eval_count;
        total_tokens = int64 (resp.prompt_eval_count +ℤ resp.eval_count);
      };
      finish_reason = determine_finish_reason resp;
    }

    unfoldable pub chat : OllamaClient → List Message → ChatOptions → Reply ChatResponse
    unfolding build_request exchange
    chat c messages opts =
        reply_then
          (exchange (c.base_url ++ codes "/api/chat")
            (chat_body (build_request c messages opts false)))
          (λ body.
            reply_then (reply_of decode_failed (t.decode_response body))
              (λ resp. reply (domain_response resp)))

    abbrev pub streamed : Reply Bytes → List Piece
    streamed (reply body) = read_chunks (t.decode_chunks body)
    streamed (no_reply err) = error_piece err ∷ []

    -- What `Stream` sends on its channel before it closes it.
    unfoldable pub stream_chat : OllamaClient → List Message → ChatOptions → List Piece
    unfolding build_request exchange read_chunks
    stream_chat c messages opts = streamed (
        exchange (c.base_url ++ codes "/api/chat") (chat_body (build_request c messages opts true)))

    unfoldable pub embed : OllamaClient → Bytes → Reply (List Float64)
    unfolding exchange
    embed c prompt =
        reply_then
          (exchange (c.base_url ++ codes "/api/embeddings") (embedding_body c.model prompt))
          (λ body. reply_of decode_failed (t.decode_embedding body))

    unfoldable pub check_health : OllamaClient → Reply (Unit {0})
    check_health c =
        let url = c.base_url ++ codes "/api/tags" in
        reply_then (created url) (λ _. reply_then (accepted (t.get url)) (λ _. reply tt))

    unfoldable pub list_models : OllamaClient → Reply (List String)
    list_models c =
        let url = c.base_url ++ codes "/api/tags" in
        reply_then (created url) (λ _.
          reply_then (accepted (t.get url)) (λ body. reply_of decode_failed (t.decode_models body)))
