-- ===== src/Graph/Telemetry.antt =====
-- The workflow with telemetry, pkg/workflow/graph.go: the same nodes in their spans, with the metrics of
-- its requests and tasks. `NewResearchGraphWithTelemetry` builds it; with one worker at most it stays
-- sequential. `elapsed n` is the n-th duration that is measured, in seconds.
use open_research_agent.Base.{
  ℕ, zero, suc, ◌+◌, ◌*◌, List, [], ◌∷◌, ◌++◌, ℤ, pos_part, some, none, Option, String,
  if◌then◌else◌, codes, Float64, Instant, float_0_3, float_0_5, float_0_7,
}
use open_research_agent.Domain.{
  Bytes, ResearchRequest, ResearchTask, Message, ChatOptions, in_progress,
}
use open_research_agent.State.{GraphState, get_phase, update_task}
use open_research_agent.State.Pending.{get_next_pending_task}
use open_research_agent.Worker.{ChatOutcome, answered, chat_failed, chat_panicked}
use open_research_agent.Observability.{
  phrase_of, span_ended, Observations, Observed, Metrics, Verdict, succeeded, failed_with, panicked,
  LlmCall, call_answered, call_failed, call_panicked, emit, with_metrics, timed_metrics, start_span,
  start_research_request, instrument_workflow_node, instrument_llm_call, record_research_request,
  record_research_complete, record_task_created, record_task_started, record_task_complete,
}
use open_research_agent.Graph.Data.{
  ResearchGraph, GraphError, Run, NodeResult, done, node_failed, node_panicked,
  clarification_failed, planning_failed, research_failed, options, clarify_messages,
  planning_messages, research_messages,
}
use open_research_agent.Graph.Nodes.{
  initial_state, start_node, supervisor_node, compression_node, report_generation_node, end_node,
  clarify_with, plan_with, parse_tasks_from_response, research_with, is_compression, is_complete,
  Executed, conclude,
}

-- The text of a node's error.
abbrev pub error_text : GraphError → Bytes
error_text (clarification_failed err) = codes "clarification failed: " ++ codes err
error_text (planning_failed err) = codes "planning failed: " ++ codes err
error_text (research_failed id err) =
    codes "research failed for task " ++ (codes id ++ (codes ": " ++ codes err))

abbrev pub verdict_of : NodeResult → Verdict
verdict_of (done r) = succeeded
verdict_of (node_failed err r) = failed_with (error_text err)
verdict_of (node_panicked r) = panicked

abbrev pub call_of : ChatOutcome → LlmCall
call_of (answered response) =
    call_answered response.usage.prompt_tokens response.usage.completion_tokens
call_of (chat_failed err) = call_failed (codes err)
call_of chat_panicked = call_panicked

-- A node's result decides whether the next node runs.
abbrev pub observed_then :
    Observed NodeResult → (Run → Observations → Observed NodeResult) → Observed NodeResult
observed_then seen next = elim seen.result [
  | done r ↦ next r seen.observations
  | node_failed err r ↦ seen
  | node_panicked r ↦ seen
]

-- `RecordTaskCreated` for each planned task.
unfoldable pub record_created : List ResearchTask → Metrics → Metrics
unfolding record_task_created
record_created [] m = m
record_created (task ∷ tasks) m = record_created tasks (record_task_created "research" m)

module _ (elapsed : ℕ → Float64) where
  -- A node that only changes the state.
  unfoldable pub observed_step :
      String → String → (GraphState → GraphState) → Run → Observations → Observed NodeResult
  unfolding instrument_workflow_node
  observed_step name phase change r =
      instrument_workflow_node elapsed verdict_of name phase
        (λ o. record { result = done (record r { state = change r.state }); observations = o })

  abbrev pub observed_start_node : (ℕ → Instant) → Run → Observations → Observed NodeResult
  observed_start_node clock = observed_step "start" "start" (start_node clock)

  abbrev pub observed_supervisor_node : (ℕ → Instant) → Run → Observations → Observed NodeResult
  observed_supervisor_node clock = observed_step "supervisor" "research" (supervisor_node clock)

  abbrev pub observed_compression_node : Instant → Run → Observations → Observed NodeResult
  observed_compression_node now = observed_step "compression" "compression" (compression_node now)

  abbrev pub observed_report_generation_node : Instant → Run → Observations → Observed NodeResult
  observed_report_generation_node now =
      observed_step "report" "reporting" (report_generation_node now)

  abbrev pub observed_end_node : Instant → Run → Observations → Observed NodeResult
  observed_end_node now = observed_step "end" "complete" (end_node now)

  -- The end of the research of a task: its completion is recorded, unless the client panicked, and
  -- then the span of the research ends.
  unfoldable pub finish_research : ChatOutcome → Observations → Observations
  unfolding record_task_complete
  finish_research (answered response) o =
      emit span_ended (timed_metrics elapsed (λ seconds. record_task_complete seconds "success") o)
  finish_research (chat_failed err) o =
      emit span_ended (timed_metrics elapsed (λ seconds. record_task_complete seconds "failed") o)
  finish_research chat_panicked o = emit span_ended o

  -- What `defer` does at the end of `Execute`, whatever its result.
  unfoldable pub finish_request : Observations → Observations
  unfolding record_research_complete
  finish_request o =
      emit span_ended
        (timed_metrics elapsed (λ seconds. record_research_complete seconds "complete") o)

module _ (elapsed : ℕ → Float64) (client : ℕ → List Message → ChatOptions → ChatOutcome)
    (planned_id : Instant → String) (result_id : String → Instant → String) (model : String) where
  -- A call of the client in its span.
  unfoldable pub observed_call :
      ℕ → List Message → ChatOptions → Observations → Observed ChatOutcome
  unfolding instrument_llm_call
  observed_call n messages opts =
      instrument_llm_call elapsed call_of model
        (λ o. record { result = client n messages opts; observations = o })

  unfoldable pub observed_clarify_node : (ℕ → Instant) → Run → Observations → Observed NodeResult
  unfolding clarify_with clarify_messages
  observed_clarify_node clock r =
      instrument_workflow_node elapsed verdict_of "clarify" "clarification" (λ o.
        let call : Observed ChatOutcome =
          observed_call r.calls (clarify_messages r.state.request) (options float_0_3 500) o in
        record {
          result = clarify_with client planned_id result_id clock r call.result;
          observations = call.observations;
        })

  unfoldable pub created_by : Instant → ChatOutcome → Metrics → Metrics
  unfolding parse_tasks_from_response
  created_by now (answered response) m =
      record_created (parse_tasks_from_response client planned_id result_id now response.content) m
  created_by now (chat_failed err) m = m
  created_by now chat_panicked m = m

  unfoldable pub observed_planning_node : (ℕ → Instant) → Run → Observations → Observed NodeResult
  unfolding plan_with planning_messages
  observed_planning_node clock r =
      instrument_workflow_node elapsed verdict_of "planning" "planning" (λ o.
        let call : Observed ChatOutcome =
          observed_call r.calls (planning_messages r.state.request) (options float_0_5 1000) o in
        record {
          result = plan_with client planned_id result_id clock r call.result;
          observations = with_metrics (created_by (clock 0) call.result) call.observations;
        })

  -- The node's work on the task that is found; its call of the client is in no span of its own.
  unfoldable pub observed_research :
      (ℕ → Instant) → Option ResearchTask → Run → Observations → Observed NodeResult
  unfolding research_with research_messages record_task_started
  observed_research clock none r o = record { result = done r; observations = o }
  observed_research clock (some task) r o =
      let outcome = client r.calls (research_messages task) (options float_0_7 2000) in
      record {
        result =
            research_with client planned_id result_id clock task
              (record r {
                state =
                    update_task (clock 0) task.id (λ t. record t { status = in_progress }) r.state;
              })
              outcome;
        observations = finish_research elapsed outcome (
            start_span (codes "research.execute")
              (("task.id", phrase_of task.id) ∷ ("task.topic", phrase_of task.topic) ∷ [])
              (with_metrics record_task_started o));
      }

  unfoldable pub observed_researcher_node : (ℕ → Instant) → Run → Observations → Observed NodeResult
  observed_researcher_node clock r =
      instrument_workflow_node elapsed verdict_of "researcher" "research"
        (observed_research clock (get_next_pending_task r.state.tasks) r)

  unfoldable pub observed_loop :
      (ℕ → ℕ → Instant) → ℕ → ℕ → Run → Observations → Observed NodeResult
  unfolding supervisor_node observed_researcher_node
  observed_loop clock zero i r o = record { result = done r; observations = o }
  observed_loop clock (suc left) i r o =
      observed_then (observed_supervisor_node elapsed (clock (2 * i)) r o) (λ s supervised.
        let rest =
          observed_then (observed_researcher_node (clock (2 * i + 1)) s supervised)
            (observed_loop clock left (suc i)) in
        if is_compression (get_phase s.state)
        then record { result = done s; observations = supervised }
        else rest)

  unfoldable pub observed_plan_and_research :
      (ℕ → ℕ → Instant) → ℤ → Run → Observations → Observed NodeResult
  unfolding observed_planning_node observed_loop compression_node report_generation_node end_node
  observed_plan_and_research clock max_iterations r o =
      observed_then (observed_planning_node (clock 2) r o) (λ planned o1.
        observed_then (observed_loop (λ n. clock (n + 4)) (pos_part max_iterations) 0 planned o1)
          (λ looped o2.
            observed_then (observed_compression_node elapsed (clock 3 0) looped o2)
              (λ compressed o3.
                observed_then (observed_report_generation_node elapsed (clock 3 1) compressed o3)
                  (observed_end_node elapsed (clock 3 2)))))

  unfoldable pub observed_nodes :
      (ℕ → ℕ → Instant) → ResearchGraph → ResearchRequest → ℕ → Observations → Observed NodeResult
  unfolding initial_state start_node observed_clarify_node observed_plan_and_research
  observed_nodes clock graph request metadata o =
      observed_then
        (observed_start_node elapsed (λ n. clock 0 (suc n))
          (record { state = initial_state (clock 0 0) graph request metadata; calls = 0 }) o)
        (λ started o1. observed_then (observed_clarify_node (clock 1) started o1) (λ clarified o2.
          if is_complete (get_phase clarified.state)
          then record { result = done clarified; observations = o2 }
          else observed_plan_and_research clock graph.config.research_config.max_iterations
              clarified o2))

  -- `Execute` with telemetry, of a graph that has no worker pool.
  unfoldable pub observed_execute :
      (String → String)
      → (ℕ → ℕ → Instant)
      → ResearchGraph
      → ResearchRequest
      → ℕ
      → Observations
      → Observed Executed
  unfolding start_research_request record_research_request conclude observed_nodes finish_request
  observed_execute report_id clock graph request metadata o =
      let seen = observed_nodes clock graph request metadata (
        with_metrics (record_research_request "api")
          (start_research_request request.id "user" request.query o)) in
      record {
        result = conclude report_id (clock 3 3) seen.result;
        observations = finish_request elapsed seen.observations;
      }
