-- ===== src/Graph/Runs.antt =====
-- What a run of the workflow comes to.
use open_research_agent.Base.{
  ℕ, zero, suc, ◌+◌, ◌≡◌, refl, List, [], ◌∷◌, Bool, true, false, pos, pos_part, String, float_0_3,
  float_0_5, if◌then◌else◌, ltb, length, Instant,
}
use open_research_agent.Base.GoMap.{insert}
use open_research_agent.Domain.{ResearchRequest, Message, ChatOptions, Bytes, planning, research}
use open_research_agent.State.{
  GraphState, new_graph_state, set_llm_client, set_tools, set_phase, get_phase, add_message,
  add_task,
}
use open_research_agent.Worker.{ChatOutcome, answered, chat_failed, chat_panicked}
use open_research_agent.Graph.{
  ResearchGraph, clarification_failed, planning_failed, Run, NodeResult, done, node_failed,
  node_panicked, and_then, options, clarify_messages, planning_messages, start_node,
  compression_node, report_generation_node, end_node, parse_tasks_from_response, clarify_with,
  clarify_node, add_tasks, plan_with, planning_node, plan_and_research, run_nodes, initial_state,
  message, is_complete,
}
use open_research_agent.Graph.Rounds.{
  Produced, IsComplete, research_answer, EndsResearch, EndsRounds, rounds-EndsRounds,
}

-- The outcomes from the planning on, by the client's second answer.
abbrev pub EndsPlanning :
    (ℕ → List Message → ChatOptions → ChatOutcome) → ChatOutcome → ℕ → String → NodeResult → Type 0
EndsPlanning client (answered response) n id outcome = EndsRounds client IsComplete n id outcome
EndsPlanning client (chat_failed err) n id outcome =
    (q : Run) × (outcome ≡ node_failed (planning_failed err) q) × (q.calls ≡ 2)
EndsPlanning client chat_panicked n id outcome =
    (q : Run) × (outcome ≡ node_panicked q) × (q.calls ≡ 2)

-- The outcomes after an answer about clarity, by whether the query is short.
abbrev pub EndsClarified :
    (ℕ → List Message → ChatOptions → ChatOutcome)
    → Bool
    → ResearchRequest
    → ℕ
    → String
    → NodeResult
    → Type 0
EndsClarified client true request n id outcome =
    (q : Run) × (outcome ≡ done q) × Produced 1 [] q × IsComplete q
EndsClarified client false request n id outcome =
    EndsPlanning client (client 1 (planning_messages request) (options float_0_5 1000)) n id outcome

-- The outcomes of a run, by the client's first answer.
abbrev pub EndsRun :
    (ℕ → List Message → ChatOptions → ChatOutcome)
    → ChatOutcome
    → ResearchRequest
    → ℕ
    → String
    → NodeResult
    → Type 0
EndsRun client (answered response) request n id outcome =
    EndsClarified client (ltb (length request.query) 10) request n id outcome
EndsRun client (chat_failed err) request n id outcome =
    (q : Run) × (outcome ≡ node_failed (clarification_failed err) q) × (q.calls ≡ 1)
EndsRun client chat_panicked request n id outcome =
    (q : Run) × (outcome ≡ node_panicked q) × (q.calls ≡ 1)

module _ (client : ℕ → List Message → ChatOptions → ChatOutcome) (planned_id : Instant → String)
    (result_id : String → Instant → String) where
  -- The last three nodes.
  abbrev finish : (ℕ → Instant) → Run → Run
  finish clock r = record r {
    state =
        end_node (clock 2) (report_generation_node (clock 1) (compression_node (clock 0) r.state));
  }

  finish-IsComplete :
      (clock : ℕ → Instant) (r : Run) (n : ℕ) (contents : List Bytes)
      → Produced n contents r
      → Produced n contents (finish clock r) × IsComplete (finish clock r)
  unfolding end_node report_generation_node compression_node set_phase
  finish-IsComplete clock r n contents p = (
    record {
      calls_made = p.calls_made;
      contents_kept = p.contents_kept;
      summaries_kept = p.summaries_kept;
    },
    refl,
  )

  finish-EndsResearch :
      (clock : ℕ → Instant) (id : String) (a : ChatOutcome) (o : NodeResult)
      → EndsResearch (λ q. Unit) id a o
      → EndsResearch IsComplete id a (and_then o (λ r. done (finish clock r)))
  finish-EndsResearch clock id (answered response) o (q, e, p, _) =
      let (produced, ended) = finish-IsComplete clock q 3 (response.content ∷ []) p in
      rw e (finish clock q, refl, produced, ended)
  finish-EndsResearch clock id (chat_failed err) o (q, e, c) = rw e (q, refl, c)
  finish-EndsResearch clock id chat_panicked o (q, e, c) = rw e (q, refl, c)

  finish-EndsRounds :
      (clock : ℕ → Instant) (n : ℕ) (id : String) (o : NodeResult)
      → EndsRounds client (λ q. Unit) n id o
      → EndsRounds client IsComplete n id (and_then o (λ r. done (finish clock r)))
  finish-EndsRounds clock zero id o (q, e, p, _) =
      let (produced, ended) = finish-IsComplete clock q 2 [] p in
      rw e (finish clock q, refl, produced, ended)
  finish-EndsRounds clock (suc n) id o h = finish-EndsResearch clock id (research_answer client) o h

  abbrev unplanned_state : GraphState → GraphState
  unplanned_state s = record s { tasks = []; results = [] }

  plan-EndsPlanning :
      (clock : ℕ → ℕ → Instant) (s : GraphState) (a : ChatOutcome)
      → s.iterations ≡ pos 0
      → client 1 (planning_messages s.request) (options float_0_5 1000) ≡ a
      → EndsPlanning client a (pos_part s.max_iterations) (planned_id (clock 2 0)) (
          plan_and_research client planned_id result_id clock s.max_iterations
            (record { state = unplanned_state s; calls = 1 }))
  unfolding plan_and_research planning_node plan_with add_tasks add_task parse_tasks_from_response
      set_phase insert
  plan-EndsPlanning clock s (answered response) z e = rw e (
      finish-EndsRounds (clock 3) (pos_part s.max_iterations) (planned_id (clock 2 0)) _ (
        rounds-EndsRounds client planned_id result_id (λ n. clock (n + 4))
          (pos_part s.max_iterations) (planned_id (clock 2 0)) (clock 2 1)
          (record s { current_phase = research; updated_at = clock 2 2 }) refl z))
  plan-EndsPlanning clock s (chat_failed err) z e = rw e (_, refl, refl)
  plan-EndsPlanning clock s chat_panicked z e = rw e (_, refl, refl)

  -- The clarify node, and what follows when the query is long enough.
  clarify-EndsRun :
      (clock : ℕ → ℕ → Instant) (s : GraphState) (a : ChatOutcome) (short : Bool)
      → s.iterations ≡ pos 0
      → ltb (length s.request.query) 10 ≡ short
      → client 0 (clarify_messages s.request) (options float_0_3 500) ≡ a
      → EndsRun client a s.request (pos_part s.max_iterations) (planned_id (clock 2 0)) (
          and_then
            (clarify_node client planned_id result_id
              (clock 1)
              (record { state = unplanned_state s; calls = 0 }))
            (λ r.
              if is_complete (get_phase r.state)
              then done r
              else plan_and_research client planned_id result_id clock s.max_iterations r))
  unfolding clarify_node clarify_with add_message set_phase
  clarify-EndsRun clock s (answered response) true z h e =
      rw (e, h)
        (_, refl, record { calls_made = refl; contents_kept = refl; summaries_kept = refl }, refl)
  clarify-EndsRun clock s (answered response) false z h e =
      let next : GraphState =
        set_phase (clock 1 1) planning
          (add_message (clock 1 0) (message "assistant" response.content) s) in
      rw (e, h)
        (plan-EndsPlanning clock next
          (client 1 (planning_messages s.request) (options float_0_5 1000)) z refl)
  clarify-EndsRun clock s (chat_failed err) short z h e = rw e (_, refl, refl)
  clarify-EndsRun clock s chat_panicked short z h e = rw e (_, refl, refl)

  -- What `Execute` comes to, for every client and every bound on the iterations: the first call of
  -- the client that fails or panics ends it with that, and no later call is made. A query of fewer
  -- than 10 bytes ends it complete after one call, without results; a longer one after three calls
  -- with one result, which holds the client's third answer and its summary, or after two without
  -- results when the bound is not positive. However large the bound is, there are at most three calls.
  pub run_nodes-EndsRun :
      (clock : ℕ → ℕ → Instant) (graph : ResearchGraph) (request : ResearchRequest) (metadata : ℕ)
      → EndsRun client
          (client 0 (clarify_messages request) (options float_0_3 500))
          request
          (pos_part graph.config.research_config.max_iterations)
          (planned_id (clock 2 0))
          (run_nodes client planned_id result_id clock graph request metadata)
  unfolding run_nodes initial_state start_node new_graph_state set_llm_client set_tools set_phase
      add_message
  run_nodes-EndsRun clock graph request metadata =
      clarify-EndsRun clock
        (start_node (λ n. clock 0 (suc n)) (initial_state (clock 0 0) graph request metadata))
        (client 0 (clarify_messages request) (options float_0_3 500))
        (ltb (length request.query) 10) refl refl refl
