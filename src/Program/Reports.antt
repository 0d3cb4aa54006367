-- ===== src/Program/Reports.antt =====
-- What the program reports.
use open_research_agent.Base.{
  ℕ, suc, ◌-◌, ◌≤◌, ◌≡◌, refl, subst, List, [], ◌∷◌, false, pos_part, arith, some, none, Option,
  String, float_0_5, if◌then◌else◌, ltb, ◌==◌, length, FloatOps, Instant,
}
use open_research_agent.Domain.{Bytes, Message, ChatOptions, ResearchRequest, ResearchReport}
use open_research_agent.Worker.{ChatResponse, ChatOutcome, answered, chat_failed, chat_panicked}
use open_research_agent.Config.{Config}
use open_research_agent.Config.Loading.{Environment, FileState, loaded, load}
use open_research_agent.Config.Validity.{load_iff}
use open_research_agent.Llm.{OllamaClient, Transport, Reply, reply, no_reply, new_ollama_client}
use open_research_agent.Graph.{
  ResearchGraph, NodeResult, Executed, reported, stopped, execution_panicked, options,
  planning_messages, generate_summary, new_research_graph, execute, conclude,
}
use open_research_agent.Graph.Rounds.{IsComplete, research_answer, EndsResearch}
use open_research_agent.Graph.Runs.{EndsPlanning, EndsClarified, EndsRun, run_nodes-EndsRun}
use open_research_agent.Graph.Queries.{found_texts, conclude-found}
use open_research_agent.Program.{
  Formats, Finished, printed, run_failed, no_query, no_input, model_of, request_of, finished_as,
  research_query, run_cli, if_healthy, ollama_options, workflow_config, run_program,
}

-- The report has one finding, the summary of the model's third answer.
abbrev pub HasOneFinding : ChatOutcome → ResearchReport → Type 0
HasOneFinding answer report =
    (response : ChatResponse) × (answer ≡ answered response)
    × (found_texts report ≡ generate_summary response.content ∷ [])

module _ (report_id : String → String) (now : Instant) where
  EndsResearch-HasOneFinding :
      (id : String) (a : ChatOutcome) (o : NodeResult) (report : ResearchReport)
      → EndsResearch IsComplete id a o
      → conclude report_id now o ≡ reported report
      → HasOneFinding a report
  unfolding conclude
  EndsResearch-HasOneFinding id (answered response) o report (q, e, p, _) c =
      (response, refl, conclude-found report_id now report q o _ 3 e p c)
  EndsResearch-HasOneFinding id (chat_failed err) o report (q, e, _) c = cc
  EndsResearch-HasOneFinding id chat_panicked o report (q, e, _) c = cc

  EndsPlanning-HasOneFinding :
      (client : ℕ → List Message → ChatOptions → ChatOutcome) (a : ChatOutcome) (n : ℕ)
      (id : String) (o : NodeResult) (report : ResearchReport)
      → EndsPlanning client a (suc n) id o
      → conclude report_id now o ≡ reported report
      → HasOneFinding (research_answer client) report
  unfolding conclude
  EndsPlanning-HasOneFinding client (answered response) n id o report h c =
      EndsResearch-HasOneFinding id (research_answer client) o report h c
  EndsPlanning-HasOneFinding client (chat_failed err) n id o report (q, e, _) c = cc
  EndsPlanning-HasOneFinding client chat_panicked n id o report (q, e, _) c = cc

  EndsRun-HasOneFinding :
      (client : ℕ → List Message → ChatOptions → ChatOutcome) (a : ChatOutcome)
      (request : ResearchRequest) (n m : ℕ) (id : String) (o : NodeResult) (report : ResearchReport)
      → 10 ≤ length request.query
      → m ≡ suc n
      → EndsRun client a request m id o
      → conclude report_id now o ≡ reported report
      → HasOneFinding (research_answer client) report
  unfolding conclude
  EndsRun-HasOneFinding client (answered response) request n m id o report long s h c =
      let not_short : ltb (length request.query) 10 ≡ false = ground arith in
      EndsPlanning-HasOneFinding client
        (client 1 (planning_messages request) (options float_0_5 1000)) n id o report
        (subst (λ k. EndsClarified client false request k id o) s
          (subst (λ b. EndsClarified client b request m id o) not_short h))
        c
  EndsRun-HasOneFinding client (chat_failed err) request n m id o report long s (q, e, _) c = cc
  EndsRun-HasOneFinding client chat_panicked request n m id o report long s (q, e, _) c = cc

if_healthy-printed :
    (float : FloatOps) (fmt : Formats) (transport : ℕ → Transport) (r : Reply (Unit {0}))
    (next : Finished) (report : ResearchReport)
    → if_healthy float fmt transport r next ≡ printed report
    → next ≡ printed report
if_healthy-printed float fmt transport (reply _) next report e = e
if_healthy-printed float fmt transport (no_reply err) next report e = cc

finished_as-printed :
    (float : FloatOps) (fmt : Formats) (transport : ℕ → Transport) (x : Executed)
    (report : ResearchReport)
    → finished_as float fmt transport x ≡ printed report
    → x ≡ reported report
finished_as-printed float fmt transport (reported r) report e = cc
finished_as-printed float fmt transport (stopped err) report e = cc
finished_as-printed float fmt transport execution_panicked report e = cc

module _ (float : FloatOps) (fmt : Formats) (transport : ℕ → Transport) where
  research_query-printed :
      (clock : ℕ → ℕ → Instant) (c : OllamaClient) (graph : ResearchGraph) (query : Bytes)
      (report : ResearchReport)
      → 10 ≤ length query
      → research_query float fmt transport clock c graph query ≡ printed report
      → execute
          (model_of float fmt transport c)
          fmt.planned_id
          fmt.result_id
          fmt.report_id
          clock
          graph
          (request_of float fmt transport (clock 0 8) (clock 0 9) query)
          0
        ≡ reported report
  unfolding research_query
  research_query-printed clock c graph query report long e =
      let some_query : (length query == 0) ≡ false = ground arith in
      let outcome : Executed =
        execute (model_of float fmt transport c) fmt.planned_id fmt.result_id fmt.report_id clock
          graph (request_of float fmt transport (clock 0 8) (clock 0 9) query) 0 in
      finished_as-printed float fmt transport outcome report (
        subst
          (λ b.
            (if b then run_failed no_query else finished_as float fmt transport outcome)
            ≡ printed report)
          some_query e)

  run_cli-printed :
      (clock : ℕ → ℕ → Instant) (c : OllamaClient) (graph : ResearchGraph) (stdin : Option Bytes)
      (query : Bytes) (report : ResearchReport)
      → 10 ≤ length query
      → run_cli float fmt transport clock c graph stdin query ≡ printed report
      → research_query float fmt transport clock c graph query ≡ printed report
  unfolding run_cli
  run_cli-printed clock c graph none query report long e =
      let some_query : (length query == 0) ≡ false = ground arith in
      subst
        (λ b.
          (if b
            then run_failed no_input
            else research_query float fmt transport clock c graph query)
          ≡ printed report)
        some_query e
  run_cli-printed clock c graph (some line) query report long e =
      let some_query : (length query == 0) ≡ false = ground arith in
      subst
        (λ b.
          research_query float fmt transport clock c graph
            (if b then fmt.trim_space line else query)
          ≡ printed report)
        some_query e

  -- The client that the program makes of a configuration.
  abbrev pub client_of : Config → OllamaClient
  client_of cfg =
      new_ollama_client float (fmt.base_url_of cfg.ollama.base_url) cfg.ollama.model
        (some (ollama_options cfg))

  -- A program that is started with a configuration that was loaded and a query of at least 10 bytes,
  -- and that prints a report, has found the third answer of the model: the report has one finding,
  -- which is the summary of that answer.
  pub run_program-HasOneFinding :
      (env : Environment) (file : FileState) (cfg : Config) (clock : ℕ → ℕ → Instant)
      (first : Transport) (stdin : Option Bytes) (query : Bytes) (report : ResearchReport)
      → load env file ≡ loaded cfg
      → 10 ≤ length query
      → run_program float fmt transport clock first cfg false stdin query ≡ printed report
      → HasOneFinding (research_answer (model_of float fmt transport (client_of cfg))) report
  unfolding run_program new_research_graph execute workflow_config
  run_program-HasOneFinding env file cfg clock first stdin query report l long e =
      let graph : ResearchGraph = record {
        config = workflow_config cfg;
        llm_client = 0;
        tools = 1;
      } in
      let valid = ((load_iff env file cfg).0 l).valid in
      let rounds : pos_part cfg.research.max_iterations
          ≡ suc (pos_part cfg.research.max_iterations - 1) =
        omega (arith, valid.iterations_pos) in
      let ran = if_healthy-printed float fmt transport _ _ report e in
      let executed =
        research_query-printed clock (client_of cfg) graph query report long
          (run_cli-printed clock (client_of cfg) graph stdin query report long ran) in
      let request : ResearchRequest =
        request_of float fmt transport (clock 0 8) (clock 0 9) query in
      let model = model_of float fmt transport (client_of cfg) in
      EndsRun-HasOneFinding fmt.report_id (clock 3 3) model _ request
        (pos_part cfg.research.max_iterations - 1) (pos_part cfg.research.max_iterations)
        (fmt.planned_id (clock 2 0)) _ report long rounds
        (run_nodes-EndsRun model fmt.planned_id fmt.result_id clock graph request 0) executed
