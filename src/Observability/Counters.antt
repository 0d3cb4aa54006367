-- ===== src/Observability/Counters.antt =====
-- The total of a counter among the measurements, and what the recording functions add to it.
use open_research_agent.Base.{
  ◌≡◌, refl, List, [], ◌∷◌, ℤ, pos, ◌+ℤ◌, int64, arith, String, str_eq, if◌then◌else◌, Float64,
}
use open_research_agent.Observability.Data.{Measurement, added, observed_value, Metrics}
use open_research_agent.Observability.Recording.{record_llm_request}

-- The sum of what was added to the counter of a name.
abbrev pub total_of : String → List Measurement → ℤ
total_of name [] = pos 0
total_of name (added counter amount attributes ∷ earlier) =
    let rest = total_of name earlier in if str_eq counter name then amount +ℤ rest else rest
total_of name (observed_value histogram seconds attributes ∷ earlier) = total_of name earlier

abbrev pub requests_of : Metrics → ℤ
requests_of m = total_of "llm_requests_total" m.measurements

abbrev pub tokens_of : Metrics → ℤ
tokens_of m = total_of "llm_tokens_used_total" m.measurements

module _ (model : String) (prompts completions : ℤ) (seconds : Float64) (m : Metrics) where
  pub requests_of-record_llm_request :
      requests_of (record_llm_request model prompts completions seconds m) ≡ pos 1 +ℤ requests_of m
  unfolding record_llm_request
  requests_of-record_llm_request = refl

  pub tokens_of-record_llm_request :
      tokens_of (record_llm_request model prompts completions seconds m)
      ≡ int64 (prompts +ℤ completions) +ℤ tokens_of m
  unfolding record_llm_request
  tokens_of-record_llm_request = refl

pub zero-+ℤ : (x : ℤ) → pos 0 +ℤ x ≡ x
zero-+ℤ x = ground arith
