-- ===== src/Graph/Nodes.antt =====
-- The nodes of the research workflow, pkg/workflow/graph.go.
use open_research_agent.Base.{
  ℕ, zero, suc, ◌+◌, ◌*◌, List, [], ◌∷◌, ◌++◌, map, Bool, true, false, ◌&&◌, ℤ, pos, pos_part,
  leb_ℤ, eqb_ℤ, some, none, Option, String, float_0_3, float_0_5, float_0_7, if◌then◌else◌, ltb,
  length, codes, float_0_8, Instant, zero_time,
}
use open_research_agent.Domain.{
  ResearchRequest, ResearchResult, ResearchTask, ResearchReport, Finding, Message, ChatOptions,
  Bytes, Phase, pending, in_progress, completed, failed, start, planning, research, compression,
  reporting, complete,
}
use open_research_agent.State.{
  GraphState, StateConfig, new_graph_state, set_llm_client, set_tools, set_phase, get_phase,
  add_message, add_task, update_task, add_result, increment_iteration, get_task_stats,
}
use open_research_agent.State.Pending.{get_next_pending_task}
use open_research_agent.Worker.{ChatOutcome, answered, chat_failed, chat_panicked, first_bytes}
use open_research_agent.Graph.Data.{
  ResearchGraph, GraphError, Run, NodeResult, and_then, message, options, clarify_messages,
  planning_messages, research_messages, clarification_failed, planning_failed, research_failed,
  done, node_failed, node_panicked,
}

-- The state that `Execute` starts from.
unfoldable pub initial_state : Instant → ResearchGraph → ResearchRequest → ℕ → GraphState
initial_state now graph request metadata =
    let cfg : StateConfig = record {
      max_iterations = graph.config.research_config.max_iterations;
      max_tasks = pos 50;
      task_timeout = 0;
      state_timeout = 0;
      enable_checkpoint = false;
    } in
    set_tools (some graph.tools)
      (set_llm_client (some graph.llm_client) (new_graph_state request (some cfg) metadata now))

unfoldable pub start_node : (ℕ → Instant) → GraphState → GraphState
start_node clock s =
    add_message (clock 1)
      (message "system" (codes "Starting research workflow for query: " ++ s.request.query))
      (set_phase (clock 0) start s)

-- `content[:200]` with three dots, for a content of more than 200 bytes.
unfoldable pub generate_summary : Bytes → Bytes
generate_summary content =
    if ltb 200 (length content) then first_bytes 200 content ++ codes "..." else content

unfoldable pub supervisor_node : (ℕ → Instant) → GraphState → GraphState
supervisor_node clock s =
    if leb_ℤ s.max_iterations s.iterations
    then set_phase (clock 0) compression s
    else let stats = get_task_stats s in
      if eqb_ℤ stats.pending (pos 0) && eqb_ℤ stats.in_progress (pos 0)
      then set_phase (clock 0) compression s
      else increment_iteration (clock 1) (set_phase (clock 0) research s)

unfoldable pub compression_node : Instant → GraphState → GraphState
compression_node now s = set_phase now reporting s

unfoldable pub report_generation_node : Instant → GraphState → GraphState
report_generation_node now s = set_phase now complete s

unfoldable pub end_node : Instant → GraphState → GraphState
end_node now s = set_phase now complete s

abbrev pub is_compression : Phase → Bool
is_compression compression = true
is_compression _ = false

abbrev pub is_complete : Phase → Bool
is_complete complete = true
is_complete _ = false

module _ (client : ℕ → List Message → ChatOptions → ChatOutcome) (planned_id : Instant → String)
    (result_id : String → Instant → String) where
  -- `parseTasksFromResponse`, which does not look at the response.
  unfoldable pub parse_tasks_from_response : Instant → Bytes → List ResearchTask
  parse_tasks_from_response now response =
      record {
        id = planned_id now;
        topic = "Main research topic from query";
        parent_id = "";
        status = pending;
        priority = pos 1;
        assigned_worker = "";
        results = [];
        created_at = zero_time;
        completed_at = none;
        metadata = [];
      }
      ∷ []

  unfoldable pub clarify_with : (ℕ → Instant) → Run → ChatOutcome → NodeResult
  clarify_with clock r (answered response) =
      let s = add_message (clock 0) (message "assistant" response.content) r.state in
      done (record {
        state =
            set_phase (clock 1) (if ltb (length s.request.query) 10 then complete else planning) s;
        calls = suc r.calls;
      })
  clarify_with clock r (chat_failed err) =
      node_failed (clarification_failed err) (record r { calls = suc r.calls })
  clarify_with clock r chat_panicked = node_panicked (record r { calls = suc r.calls })

  unfoldable pub clarify_node : (ℕ → Instant) → Run → NodeResult
  unfolding clarify_with clarify_messages
  clarify_node clock r =
      clarify_with clock r
        (client r.calls (clarify_messages r.state.request) (options float_0_3 500))

  unfoldable pub add_tasks : Instant → List ResearchTask → GraphState → GraphState
  add_tasks now [] s = s
  add_tasks now (task ∷ tasks) s = add_tasks now tasks (add_task now task s)

  unfoldable pub plan_with : (ℕ → Instant) → Run → ChatOutcome → NodeResult
  unfolding add_tasks parse_tasks_from_response
  plan_with clock r (answered response) = done (record {
    state =
        set_phase (clock 2) research
          (add_tasks (clock 1) (parse_tasks_from_response (clock 0) response.content) r.state);
    calls = suc r.calls;
  })
  plan_with clock r (chat_failed err) =
      node_failed (planning_failed err) (record r { calls = suc r.calls })
  plan_with clock r chat_panicked = node_panicked (record r { calls = suc r.calls })

  unfoldable pub planning_node : (ℕ → Instant) → Run → NodeResult
  unfolding plan_with planning_messages
  planning_node clock r =
      plan_with clock r
        (client r.calls (planning_messages r.state.request) (options float_0_5 1000))

  unfoldable pub make_result : (ℕ → Instant) → ResearchTask → Bytes → ResearchResult
  unfolding generate_summary
  make_result clock task content = record {
    id = result_id task.id (clock 1);
    task_id = task.id;
    source = "llm_research";
    content = content;
    summary = generate_summary content;
    confidence = float_0_8;
    metadata = [];
    timestamp = clock 2;
  }

  -- The end of the researcher node: the task fails, or completes with the result.
  unfoldable pub research_with : (ℕ → Instant) → ResearchTask → Run → ChatOutcome → NodeResult
  unfolding make_result
  research_with clock task r (answered response) =
      let result = make_result clock task response.content in
      done (record {
        state = add_result (clock 5) result (
            update_task (clock 4) task.id
              (λ t. record t {
                status = completed;
                results = t.results ++ result ∷ [];
                completed_at = some (clock 3);
              })
              r.state);
        calls = suc r.calls;
      })
  research_with clock task r (chat_failed err) = node_failed (research_failed task.id err) (record {
    state = update_task (clock 3) task.id (λ t. record t { status = failed }) r.state;
    calls = suc r.calls;
  })
  research_with clock task r chat_panicked = node_panicked (record r { calls = suc r.calls })

  -- The topic that the prompt takes is that of the shared task, as it was found.
  unfoldable pub research_next : (ℕ → Instant) → Option ResearchTask → Run → NodeResult
  unfolding research_with research_messages
  research_next clock none r = done r
  research_next clock (some task) r =
      research_with clock task
        (record r {
          state = update_task (clock 0) task.id (λ t. record t { status = in_progress }) r.state;
        })
        (client r.calls (research_messages task) (options float_0_7 2000))

  -- The task map is visited in the order of the list; it holds the one planned task.
  unfoldable pub researcher_node : (ℕ → Instant) → Run → NodeResult
  unfolding research_next
  researcher_node clock r = research_next clock (get_next_pending_task r.state.tasks) r

  -- The loop of `Execute`, by the number of rounds left; round `i` reads the clocks 2 i and 2 i + 1.
  unfoldable pub research_loop : (ℕ → ℕ → Instant) → ℕ → ℕ → Run → NodeResult
  unfolding researcher_node supervisor_node
  research_loop clock zero i r = done r
  research_loop clock (suc left) i r =
      let s = supervisor_node (clock (2 * i)) r.state in
      let next = researcher_node (clock (2 * i + 1)) (record r { state = s }) in
      let rest = and_then next (λ q. research_loop clock left (suc i) q) in
      if is_compression (get_phase s) then done (record r { state = s }) else rest

  -- `Execute` from the planning on, its clocks counted from 3.
  unfoldable pub plan_and_research : (ℕ → ℕ → Instant) → ℤ → Run → NodeResult
  unfolding planning_node research_loop compression_node report_generation_node end_node
  plan_and_research clock max_iterations r = and_then (planning_node (clock 2) r) (λ planned.
      and_then (research_loop (λ n. clock (n + 4)) (pos_part max_iterations) 0 planned) (λ looped.
        done (record looped {
          state =
              end_node (clock 3 2)
                (report_generation_node (clock 3 1) (compression_node (clock 3 0) looped.state));
        })))

  -- `Execute` up to the report.
  unfoldable pub run_nodes : (ℕ → ℕ → Instant) → ResearchGraph → ResearchRequest → ℕ → NodeResult
  unfolding initial_state start_node clarify_node plan_and_research
  run_nodes clock graph request metadata =
      let s =
        start_node (λ n. clock 0 (suc n)) (initial_state (clock 0 0) graph request metadata) in
      and_then (clarify_node (clock 1) (record { state = s; calls = 0 })) (λ clarified.
        if is_complete (get_phase clarified.state)
        then done clarified
        else plan_and_research clock graph.config.research_config.max_iterations clarified)

abbrev pub finding_of : ResearchResult → Finding
finding_of result = record {
  id = result.id;
  title = "Research Finding";
  content = result.summary;
  confidence = result.confidence;
  sources = [];
  tags = [];
  metadata = [];
}

pub data Executed : Type 0 where
  reported : ResearchReport → Executed
  stopped : GraphError → Executed
  execution_panicked : Executed

module _ (report_id : String → String) where
  unfoldable pub extract_report : Instant → GraphState → ResearchReport
  extract_report now s = record {
    id = report_id s.request.id;
    request_id = s.request.id;
    executive = "Research completed successfully";
    sections = [];
    findings = map finding_of s.results;
    sources = [];
    generated_at = now;
    tokens_used = pos 0;
    metadata = [];
  }

  unfoldable pub conclude : Instant → NodeResult → Executed
  unfolding extract_report
  conclude now (done r) = reported (extract_report now r.state)
  conclude now (node_failed err r) = stopped err
  conclude now (node_panicked r) = execution_panicked

module _ (client : ℕ → List Message → ChatOptions → ChatOutcome) (planned_id : Instant → String)
    (result_id : String → Instant → String) (report_id : String → String) where
  unfoldable pub execute : (ℕ → ℕ → Instant) → ResearchGraph → ResearchRequest → ℕ → Executed
  unfolding conclude run_nodes
  execute clock graph request metadata =
      conclude report_id (clock 3 3)
        (run_nodes client planned_id result_id clock graph request metadata)
