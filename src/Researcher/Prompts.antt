-- ===== src/Researcher/Prompts.antt =====
-- What the research executor asks the language model, pkg/workflow/research_executor.go, and the call in
-- its span. `two_decimals` is the format "%.2f".
use open_research_agent.Base.{
  ℕ, ◌≡◌, refl, List, [], ◌∷◌, ◌++◌, Bool, true, false, if◌then◌else◌, ◌==◌, length, codes, Float64,
  float_0_7,
}
use open_research_agent.Domain.{Bytes, Message, ChatOptions, ResearchTask, ResearchResult}
use open_research_agent.Worker.{ChatOutcome}
use open_research_agent.Observability.{Observations, Observed, instrument_llm_call}
use open_research_agent.Observability.Closing.{HasOpen, instrument_llm_call-Closes}
use open_research_agent.Graph.{message, options}
use open_research_agent.Graph.Telemetry.{call_of}

abbrev pub analysis_system_prompt : Bytes
analysis_system_prompt =
    codes
      "You are an expert research assistant. Provide comprehensive, accurate, and well-structured research."
    ++ 10
      ∷ codes
          "Focus on: key facts, important context, current trends, reliable sources, and clear insights."

module _ (two_decimals : Float64 → Bytes) where
  abbrev pub previous_findings : List ResearchResult → Bytes
  previous_findings [] = []
  previous_findings (r ∷ results) =
      codes "- "
      ++ r.summary
      ++ codes " (confidence: "
      ++ two_decimals r.confidence
      ++ codes ")"
      ++ 10 ∷ previous_findings results

  unfoldable pub build_analysis_prompt : ResearchTask → Bytes → List Message
  build_analysis_prompt task search_results =
      message "system" analysis_system_prompt
        ∷ message "user" (codes "Research Topic: " ++ codes task.topic)
        ∷ (if length search_results == 0
            then []
            else message "system" (codes "Web search results:" ++ 10 ∷ search_results) ∷ [])
      ++ (if length task.results == 0
          then []
          else message "system" (codes "Previous findings:" ++ 10 ∷ previous_findings task.results)
            ∷ [])

  module _ (elapsed : ℕ → Float64) (client : List Message → ChatOptions → ChatOutcome) where
    abbrev pub ask : ResearchTask → Bytes → Observations → Observed ChatOutcome
    ask task search_results o = record {
      result = client (build_analysis_prompt task search_results) (options float_0_7 2000);
      observations = o;
    }

    -- `performAnalysis`, with telemetry or without.
    unfoldable pub perform_analysis :
        Bool → ResearchTask → Bytes → Observations → Observed ChatOutcome
    unfolding build_analysis_prompt instrument_llm_call
    perform_analysis true task search_results o =
        instrument_llm_call elapsed call_of "llama3.2" (ask task search_results) o
    perform_analysis false task search_results o = ask task search_results o

    -- The answer does not depend on the telemetry, which ends its span.
    perform_analysis_same :
        (telemetry : Bool) (task : ResearchTask) (search_results : Bytes) (n : ℕ) (o : Observations)
        → HasOpen n o
        → ((perform_analysis telemetry task search_results o).result
            ≡ (perform_analysis false task search_results o).result)
          × HasOpen n (perform_analysis telemetry task search_results o).observations
    unfolding perform_analysis instrument_llm_call
    perform_analysis_same true task search_results n o h = (
      refl,
      instrument_llm_call-Closes elapsed (ask task search_results) (λ m p k. k) call_of "llama3.2" n
          o h,
    )
    perform_analysis_same false task search_results n o h = (refl, h)
