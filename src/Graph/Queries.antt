-- ===== src/Graph/Queries.antt =====
-- What the query contributes to the report of the workflow.
use open_research_agent.Base.{
  ℕ, zero, suc, ◌≤◌, ◌≡◌, refl, sym, ap, ◌∙◌, subst, List, [], ◌∷◌, map, false, arith, String,
  float_0_5, ltb, length, Instant, second,
}
use open_research_agent.Domain.{
  ResearchRequest, ResearchResult, ResearchReport, Finding, Message, ChatOptions, Bytes,
}
use open_research_agent.Worker.{ChatOutcome, answered, chat_failed, chat_panicked}
use open_research_agent.Graph.{
  ResearchGraph, Run, NodeResult, done, options, planning_messages, generate_summary, execute,
  conclude, Executed, reported, stopped, execution_panicked, finding_of, extract_report,
}
use open_research_agent.Graph.Rounds.{Produced, IsComplete, research_answer, EndsResearch}
use open_research_agent.Graph.Runs.{EndsPlanning, EndsClarified, EndsRun, run_nodes-EndsRun}

-- The texts of the findings, by the bound on the iterations and the client's third answer.
abbrev texts : ChatOutcome → List Bytes
texts (answered response) = generate_summary response.content ∷ []
texts (chat_failed err) = []
texts chat_panicked = []

abbrev round_texts : ChatOutcome → ℕ → List Bytes
round_texts a zero = []
round_texts a (suc n) = texts a

map-finding_of :
    (results : List ResearchResult)
    → map (λ (f : Finding). f.content) (map finding_of results)
      ≡ map (λ (x : ResearchResult). x.summary) results
map-finding_of [] = refl
map-finding_of (result ∷ results) = ap (λ rest. result.summary ∷ rest) (map-finding_of results)

abbrev pub found_texts : ResearchReport → List Bytes
found_texts report = map (λ (f : Finding). f.content) report.findings

abbrev found_in : Executed → List Bytes
found_in (reported report) = found_texts report
found_in (stopped err) = []
found_in execution_panicked = []

module _ (report_id : String → String) (now : Instant) where
  pub conclude-found :
      (report : ResearchReport) (q : Run) (o : NodeResult) (contents : List Bytes) (n : ℕ)
      → o ≡ done q
      → Produced n contents q
      → conclude report_id now o ≡ reported report
      → found_texts report ≡ map generate_summary contents
  unfolding conclude extract_report
  conclude-found report q o contents n e p c =
      let same : found_texts report ≡ found_in (conclude report_id now (done q)) =
        sym (ap found_in (subst (λ x. conclude report_id now x ≡ reported report) e c)) in
      same ∙ map-finding_of q.state.results ∙ p.summaries_kept

  EndsResearch-found :
      (id : String) (a : ChatOutcome) (o : NodeResult) (report : ResearchReport)
      → EndsResearch IsComplete id a o
      → conclude report_id now o ≡ reported report
      → found_texts report ≡ texts a
  unfolding conclude
  EndsResearch-found id (answered response) o report (q, e, p, _) c =
      conclude-found report q o _ 3 e p c
  EndsResearch-found id (chat_failed err) o report (q, e, _) c = cc
  EndsResearch-found id chat_panicked o report (q, e, _) c = cc

  EndsPlanning-found :
      (client : ℕ → List Message → ChatOptions → ChatOutcome) (a : ChatOutcome) (n : ℕ)
      (id : String) (o : NodeResult) (report : ResearchReport)
      → EndsPlanning client a n id o
      → conclude report_id now o ≡ reported report
      → found_texts report ≡ round_texts (research_answer client) n
  unfolding conclude
  EndsPlanning-found client (answered response) zero id o report (q, e, p, _) c =
      conclude-found report q o [] 2 e p c
  EndsPlanning-found client (answered response) (suc n) id o report h c =
      EndsResearch-found id (research_answer client) o report h c
  EndsPlanning-found client (chat_failed err) n id o report (q, e, _) c = cc
  EndsPlanning-found client chat_panicked n id o report (q, e, _) c = cc

  EndsRun-found :
      (client : ℕ → List Message → ChatOptions → ChatOutcome) (a : ChatOutcome)
      (request : ResearchRequest) (n : ℕ) (id : String) (o : NodeResult) (report : ResearchReport)
      → 10 ≤ length request.query
      → EndsRun client a request n id o
      → conclude report_id now o ≡ reported report
      → found_texts report ≡ round_texts (research_answer client) n
  unfolding conclude
  EndsRun-found client (answered response) request n id o report long h c =
      let not_short : ltb (length request.query) 10 ≡ false = ground arith in
      EndsPlanning-found client (client 1 (planning_messages request) (options float_0_5 1000)) n id
        o report (subst (λ b. EndsClarified client b request n id o) not_short h) c
  EndsRun-found client (chat_failed err) request n id o report long (q, e, _) c = cc
  EndsRun-found client chat_panicked request n id o report long (q, e, _) c = cc

-- The query has no part in what is found: with a client that answers the same messages in the same
-- way, the reports of any two queries of at least 10 bytes have findings of the same text, since the
-- one task that the planner makes has a fixed topic.
pub findings_ignore_query :
    (chat : List Message → ChatOptions → ChatOutcome) (planned_id : Instant → String)
    (result_id : String → Instant → String) (report_id : String → String)
    (clock later : ℕ → ℕ → Instant) (graph : ResearchGraph) (a b : ResearchRequest) (m n : ℕ)
    (first second : ResearchReport)
    → 10 ≤ length a.query
    → 10 ≤ length b.query
    → execute (λ _. chat) planned_id result_id report_id clock graph a m ≡ reported first
    → execute (λ _. chat) planned_id result_id report_id later graph b n ≡ reported second
    → found_texts first ≡ found_texts second
unfolding execute
findings_ignore_query chat planned_id result_id report_id clock later graph a b m n first second la
      lb ea eb =
    EndsRun-found report_id (clock 3 3) (λ _. chat) _ a _ (planned_id (clock 2 0)) _ first la
      (run_nodes-EndsRun (λ _. chat) planned_id result_id clock graph a m) ea
    ∙ sym (
        EndsRun-found report_id (later 3 3) (λ _. chat) _ b _ (planned_id (later 2 0)) _ second lb
          (run_nodes-EndsRun (λ _. chat) planned_id result_id later graph b n) eb)
