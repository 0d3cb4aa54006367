-- ===== src/Llm/Streams.antt =====
-- The pieces that a stream of the client sends, pkg/llm/ollama.go.
use open_research_agent.Base.{
  ℕ, zero, suc, ◌≡◌, refl, ap, inl, inr, List, [], ◌∷◌, ◌++◌, true, false, Bool-cases, arith, none,
  if◌then◌else◌, is_none, codes, FloatOps,
}
use open_research_agent.Domain.{Bytes, Message, ChatOptions}
use open_research_agent.Llm.{
  OllamaClient, Transport, Coded, coded, not_coded, OllamaStreamResponse, Reply, reply, no_reply,
  Piece, error_piece, chunk_piece, read_chunks, streamed, stream_chat, exchange, chat_body,
  build_request,
}

-- Only the last piece of a stream may be finished or hold an error, and one with an error is finished.
abbrev pub IsStream : List Piece → Type 0
IsStream [] = Unit
IsStream (piece ∷ []) = is_none piece.error ≡ false → piece.finished ≡ true
IsStream (piece ∷ next ∷ pieces) =
    (piece.finished ≡ false) × (piece.error ≡ none) × IsStream (next ∷ pieces)

abbrev pub texts : List Piece → Bytes
texts [] = []
texts (piece ∷ pieces) = piece.content ++ texts pieces

-- The text of the chunks that are decoded before the first failure, up to the first that is finished.
abbrev pub decoded_text : List (Coded OllamaStreamResponse) → Bytes
decoded_text [] = []
decoded_text (not_coded err ∷ outcomes) = []
decoded_text (coded chunk ∷ outcomes) =
    let rest = decoded_text outcomes in
    chunk.message.content ++ (if chunk.finished then [] else rest)

IsStream-∷ :
    (piece : Piece) (pieces : List Piece)
    → piece.finished ≡ false
    → piece.error ≡ none
    → IsStream pieces
    → IsStream (piece ∷ pieces)
IsStream-∷ piece [] f e s = λ h. ground (arith, e)
IsStream-∷ piece (next ∷ pieces) f e s = (f, e, s)

read_chunks-IsStream :
    (outcomes : List (Coded OllamaStreamResponse)) → IsStream (read_chunks outcomes)
unfolding read_chunks
read_chunks-IsStream [] = tt
read_chunks-IsStream (not_coded err ∷ outcomes) = λ h. refl
read_chunks-IsStream (coded chunk ∷ outcomes) = elim (Bool-cases chunk.finished) [
  | inl e ↦ rw e (λ h. refl)
  | inr e ↦ rw e (
      IsStream-∷ (record (chunk_piece chunk) { finished = false }) (read_chunks outcomes) refl refl
        (read_chunks-IsStream outcomes))
]

texts-read_chunks :
    (outcomes : List (Coded OllamaStreamResponse))
    → texts (read_chunks outcomes) ≡ decoded_text outcomes
unfolding read_chunks
texts-read_chunks [] = refl
texts-read_chunks (not_coded err ∷ outcomes) = refl
texts-read_chunks (coded chunk ∷ outcomes) = elim (Bool-cases chunk.finished) [
  | inl e ↦ rw e refl
  | inr e ↦ rw e (ap (λ rest. chunk.message.content ++ rest) (texts-read_chunks outcomes))
]

-- The outcomes of the first `n` calls of `Decode`.
abbrev pub first_outcomes :
    ℕ → List (Coded OllamaStreamResponse) → List (Coded OllamaStreamResponse)
first_outcomes zero outcomes = []
first_outcomes (suc n) [] = []
first_outcomes (suc n) (outcome ∷ outcomes) = outcome ∷ first_outcomes n outcomes

-- What is sent after them is a beginning of the stream.
abbrev pub IsBegun : List (Coded OllamaStreamResponse) → List Piece → ℕ → Type 0
IsBegun outcomes pieces n =
    (rest : List Piece) × (pieces ≡ read_chunks (first_outcomes n outcomes) ++ rest)

read_chunks-IsBegun :
    (n : ℕ) (outcomes : List (Coded OllamaStreamResponse))
    → IsBegun outcomes (read_chunks outcomes) n
unfolding read_chunks
read_chunks-IsBegun zero outcomes = (read_chunks outcomes, refl)
read_chunks-IsBegun (suc n) [] = ([], refl)
read_chunks-IsBegun (suc n) (not_coded err ∷ outcomes) = ([], refl)
read_chunks-IsBegun (suc n) (coded chunk ∷ outcomes) =
    let (rest, e) = read_chunks-IsBegun n outcomes in
    elim (Bool-cases chunk.finished) [
      | inl f ↦ ([], rw f refl)
      | inr f ↦ (
        rest,
        rw f (
            ap (λ (pieces : List Piece). record (chunk_piece chunk) { finished = false } ∷ pieces)
              e),
      )
    ]

module _ (float : FloatOps) (t : Transport) where
  -- What an exchange makes of a stream.
  abbrev pub Streams : Reply Bytes → List Piece → Type 0
  Streams (reply body) pieces =
      IsStream pieces
      × (texts pieces ≡ decoded_text (t.decode_chunks body))
      × ((n : ℕ) → IsBegun (t.decode_chunks body) pieces n)
  Streams (no_reply err) pieces = pieces ≡ error_piece err ∷ []

  streamed-Streams : (r : Reply Bytes) → Streams r (streamed float t r)
  streamed-Streams (reply body) = (
    read_chunks-IsStream (t.decode_chunks body),
    texts-read_chunks (t.decode_chunks body),
    λ n. read_chunks-IsBegun n (t.decode_chunks body),
  )
  streamed-Streams (no_reply err) = refl

  -- Where the body of the response ends, whatever it holds, only the last piece of the stream may be
  -- marked as done or hold an error, and one with an error is marked; its text is that of the chunks
  -- that are decoded up to the first one that is done or cannot be decoded; and what is sent after any
  -- number of calls of Decode is a beginning of it. When the exchange itself fails, the stream is one
  -- piece with that error.
  pub stream_chat-Streams :
      (c : OllamaClient) (messages : List Message) (opts : ChatOptions)
      → Streams
          (exchange float t
            (c.base_url ++ codes "/api/chat")
            (chat_body (build_request float c messages opts true)))
          (stream_chat float t c messages opts)
  unfolding stream_chat
  stream_chat-Streams c messages opts = streamed-Streams _
