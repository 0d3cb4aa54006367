-- ===== src/Graph/Transparency.antt =====
-- Telemetry does not change what the workflow does, pkg/workflow/graph.go, and its spans and gauges are
-- left as they were.
use open_research_agent.Base.{
  ◌∙◌, ◌-ℤ◌, ap, pos, ◌+ℤ◌, int64, ℕ, suc, ◌+◌, ◌≡◌, List, ℤ, pos_part, IsInt64, String,
  if◌then◌else◌, Float64, Instant, refl, subst, true, leb_ℤ, some, none, Option, is_none,
}
use open_research_agent.Domain.{Bytes, ResearchRequest, Message, ChatOptions}
use open_research_agent.Observability.{
  Telemetry, with_metrics, start_research_request, record_research_complete,
  record_research_request, Observations, Observed,
}
use open_research_agent.Graph.Data.{Config}
use open_research_agent.Graph.Assembly.{
  FullGraph, full_built, new_research_graph_with_telemetry, IsAssembled,
  new_research_graph_with_telemetry-IsAssembled,
}
use open_research_agent.State.{GraphState, get_phase}
use open_research_agent.Worker.{ChatOutcome}
use open_research_agent.Observability.Closing.{HasOpen}
use open_research_agent.Graph.{
  node_panicked, node_failed, execute, conclude, ResearchGraph, Run, NodeResult, done, and_then,
  initial_state, start_node, compression_node, report_generation_node, end_node, clarify_node,
  planning_node, research_loop, plan_and_research, run_nodes, is_complete, Executed, reported,
  stopped, execution_panicked,
}
use open_research_agent.Graph.Watching.{
  Restores, Stands, Watches, follow-Watches, if-Watches, done-Watches, step-Watches,
}
use open_research_agent.Graph.Planning.{clarify_node-Watches, planning_node-Watches}
use open_research_agent.Graph.Looping.{int64-restored, loop-Watches}
use open_research_agent.Graph.Telemetry.{
  finish_request, observed_execute, observed_then, observed_step, observed_clarify_node,
  observed_planning_node, observed_loop, observed_plan_and_research, observed_nodes,
}

-- The gauge of the active tasks is as it was, unless the execution panicked.
abbrev pub Settles : Executed → ℤ → ℤ → Type 0
Settles (reported report) b active = active ≡ b
Settles (stopped err) b active = active ≡ b
Settles execution_panicked b active = Unit

-- An execution with telemetry: its result is that of the one without, and the spans and the gauges are
-- left as they stood.
pub record IsTransparent (n : ℕ) (a b : ℤ) (plain : Executed) (seen : Observed Executed)
    : Type 0 where
  pub same_result : seen.result ≡ plain
  pub spans_left : HasOpen n seen.observations
  pub requests_left : seen.observations.metrics.active_research_count ≡ a
  pub tasks_left : Settles seen.result b seen.observations.metrics.active_task_count

module _ (elapsed : ℕ → Float64) (client : ℕ → List Message → ChatOptions → ChatOutcome)
    (planned_id : Instant → String) (result_id : String → Instant → String) (model : String) (n : ℕ)
    (a b : ℤ) (range : IsInt64 b) where
  -- A node that only changes the state, and what follows it.
  step_then-Watches :
      (name phase : String) (change : GraphState → GraphState) (r : Run) (o : Observations)
      (f : Run → NodeResult) (k : Run → Observations → Observed NodeResult)
      → Stands n a b o
      → ((q : Run) (p : Observations) → Stands n a b p → Watches n a b (f q) (k q p))
      → Watches n a b
          (f (record r { state = change r.state }))
          (observed_then (observed_step elapsed name phase change r o) k)
  step_then-Watches name phase change r o f k s next =
      follow-Watches elapsed n a b (done (record r { state = change r.state }))
        (observed_step elapsed name phase change r o) f k
        (step-Watches elapsed n a b name phase change r o s) next

  abbrev changed : (GraphState → GraphState) → Run → Run
  changed change r = record r { state = change r.state }

  finish-Watches :
      (compress report end : GraphState → GraphState) (r : Run) (o : Observations)
      → Stands n a b o
      → Watches n a b (done (changed end (changed report (changed compress r)))) (
          observed_then
            (observed_step elapsed "compression" "compression" compress r o)
            (λ compressed o3.
              observed_then
                (observed_step elapsed "report" "reporting" report compressed o3)
                (observed_step elapsed "end" "complete" end)))
  finish-Watches compress report end r o s =
      step_then-Watches "compression" "compression" compress r o
        (λ q. done (changed end (changed report q)))
        (λ q p.
          observed_then (observed_step elapsed "report" "reporting" report q p)
            (observed_step elapsed "end" "complete" end))
        s
        (λ q p t.
          step_then-Watches "report" "reporting" report q p (λ u. done (changed end u))
            (observed_step elapsed "end" "complete" end) t
            (step-Watches elapsed n a b "end" "complete" end))

  plan_and_research-Watches :
      (clock : ℕ → ℕ → Instant) (max_iterations : ℤ) (r : Run) (o : Observations)
      → Stands n a b o
      → Watches n a b (plan_and_research client planned_id result_id clock max_iterations r) (
          observed_plan_and_research elapsed client planned_id result_id model clock max_iterations
            r o)
  unfolding plan_and_research observed_plan_and_research
  plan_and_research-Watches clock max_iterations r o s =
      let left = pos_part max_iterations in
      let later : ℕ → ℕ → Instant = λ k. clock (k + 4) in
      let compress = compression_node (clock 3 0) in
      let report = report_generation_node (clock 3 1) in
      let end = end_node (clock 3 2) in
      let finish =
        λ (looped : Run). done (changed end (changed report (changed compress looped))) in
      let observed_finish : Run → Observations → Observed NodeResult = λ looped o2.
        observed_then (observed_step elapsed "compression" "compression" compress looped o2)
          (λ compressed o3.
            observed_then (observed_step elapsed "report" "reporting" report compressed o3)
              (observed_step elapsed "end" "complete" end)) in
      follow-Watches elapsed n a b (planning_node client planned_id result_id (clock 2) r)
        (observed_planning_node elapsed client planned_id result_id model (clock 2) r o)
        (λ planned.
          and_then (research_loop client planned_id result_id later left 0 planned) finish)
        (λ planned o1.
          observed_then
            (observed_loop elapsed client planned_id result_id model later left 0 planned o1)
            observed_finish)
        (planning_node-Watches elapsed client planned_id result_id model n a b (clock 2) r o s)
        (λ planned o1 t.
          follow-Watches elapsed n a b
            (research_loop client planned_id result_id later left 0 planned)
            (observed_loop elapsed client planned_id result_id model later left 0 planned o1) finish
            observed_finish
            (loop-Watches elapsed client planned_id result_id model n a b range later left 0 planned
              o1 t)
            (finish-Watches compress report end))

  nodes-Watches :
      (clock : ℕ → ℕ → Instant) (graph : ResearchGraph) (request : ResearchRequest) (metadata : ℕ)
      (o : Observations)
      → Stands n a b o
      → Watches n a b
          (run_nodes client planned_id result_id clock graph request metadata)
          (observed_nodes elapsed client planned_id result_id model clock graph request metadata o)
  unfolding run_nodes observed_nodes
  nodes-Watches clock graph request metadata o s =
      let first = clock 1 in
      let bound = graph.config.research_config.max_iterations in
      let plan = plan_and_research client planned_id result_id clock bound in
      let observed_plan =
        observed_plan_and_research elapsed client planned_id result_id model clock bound in
      let planned : Run → NodeResult =
        λ q. if is_complete (get_phase q.state) then done q else plan q in
      let observed_planned : Run → Observations → Observed NodeResult = λ q p.
        if is_complete (get_phase q.state)
        then record { result = done q; observations = p }
        else observed_plan q p in
      step_then-Watches "start" "start" (start_node (λ n. clock 0 (suc n)))
        (record { state = initial_state (clock 0 0) graph request metadata; calls = 0 }) o
        (λ q. and_then (clarify_node client planned_id result_id first q) planned)
        (λ q p.
          observed_then (observed_clarify_node elapsed client planned_id result_id model first q p)
            observed_planned)
        s
        (λ q p t.
          follow-Watches elapsed n a b (clarify_node client planned_id result_id first q)
            (observed_clarify_node elapsed client planned_id result_id model first q p) planned
            observed_planned
            (clarify_node-Watches elapsed client planned_id result_id model n a b first q p t)
            (λ u v w.
              if-Watches elapsed n a b (is_complete (get_phase u.state)) (done u) (plan u)
                (record { result = done u; observations = v }) (observed_plan u v)
                (done-Watches elapsed n a b u v w) (plan_and_research-Watches clock bound u v w)))

conclude-Settles :
    (report_id : String → String) (now : Instant) (result : NodeResult) (b active : ℤ)
    → Restores result b active
    → Settles (conclude report_id now result) b active
unfolding conclude
conclude-Settles report_id now (done r) b active h = h
conclude-Settles report_id now (node_failed err r) b active h = h
conclude-Settles report_id now (node_panicked r) b active h = tt

none_only : {A : Type 0} (o : Option A) → is_none o ≡ true → o ≡ none
none_only none e = refl
none_only (some x) e = cc

-- With one worker at most no pool is built.
built-sequential :
    (log_output : List Bytes) (telemetry : Option Telemetry) (cfg : Config) (llm_client tools : ℕ)
    (g : FullGraph)
    → new_research_graph_with_telemetry log_output
        (some cfg)
        (some llm_client)
        (some tools)
        telemetry
      ≡ full_built g
    → leb_ℤ cfg.research_config.max_concurrency (pos 1) ≡ true
    → g.worker_pool ≡ none
built-sequential log_output telemetry cfg llm_client tools g e h =
    let (_, _, _, _, by_concurrency) : IsAssembled cfg telemetry (full_built g) =
      subst (IsAssembled cfg telemetry) e
        (new_research_graph_with_telemetry-IsAssembled cfg llm_client tools log_output telemetry) in
    none_only g.worker_pool (by_concurrency ∙ h)

module _ (elapsed : ℕ → Float64) (client : ℕ → List Message → ChatOptions → ChatOutcome)
    (planned_id : Instant → String) (result_id : String → Instant → String) (model : String) where
  -- Of the sequential path.
  sequential-IsTransparent :
      (report_id : String → String) (clock : ℕ → ℕ → Instant) (graph : ResearchGraph)
      (request : ResearchRequest) (metadata : ℕ) (n : ℕ) (a b : ℤ) (o : Observations)
      → IsInt64 a
      → IsInt64 b
      → Stands n a b o
      → IsTransparent n a b
          (execute client planned_id result_id report_id clock graph request metadata)
          (observed_execute elapsed client planned_id result_id model report_id clock graph request
            metadata o)
  unfolding execute observed_execute finish_request record_research_request record_research_complete
      start_research_request
  sequential-IsTransparent report_id clock graph request metadata n a b o ra rb s =
      let raised = int64 (o.metrics.active_research_count +ℤ pos 1) in
      let begun =
        with_metrics (record_research_request "api")
          (start_research_request request.id "user" request.query o) in
      let w =
        nodes-Watches elapsed client planned_id result_id model (suc n) raised b rb clock graph
          request metadata begun
          (record {
            spans_open = rw s.spans_open refl;
            requests_active = refl;
            tasks_active = s.tasks_active;
          }) in
      record {
        same_result = ap (conclude report_id (clock 3 3)) w.same_result;
        spans_left = rw w.spans_left refl;
        requests_left =
            ap (λ c. int64 (c -ℤ pos 1)) w.requests_left
            ∙ int64-restored a o.metrics.active_research_count ra s.requests_active;
        tasks_left = conclude-Settles report_id (clock 3 3) _ b _ w.tasks_left;
      }

  -- A workflow that is built with telemetry and for at most one worker has no worker pool, so that it is
  -- executed in sequence, and an execution comes to exactly what it comes to without telemetry, for
  -- every client, query and bound on the rounds, failures and panics among them. Every span that it
  -- starts is ended, and the gauge of the active requests is as before; so is that of the active tasks
  -- unless the client panicked. Both gauges start within the range of an int64.
  pub observed_execute-IsTransparent :
      (report_id : String → String) (clock : ℕ → ℕ → Instant) (log_output : List Bytes)
      (telemetry : Telemetry) (cfg : Config) (llm_client tools : ℕ) (g : FullGraph)
      (request : ResearchRequest) (metadata : ℕ) (n : ℕ) (a b : ℤ) (o : Observations)
      → new_research_graph_with_telemetry log_output
          (some cfg)
          (some llm_client)
          (some tools)
          (some telemetry)
        ≡ full_built g
      → leb_ℤ cfg.research_config.max_concurrency (pos 1) ≡ true
      → IsInt64 a
      → IsInt64 b
      → Stands n a b o
      → (g.worker_pool ≡ none)
        × IsTransparent n a b
            (execute client planned_id result_id report_id clock g.graph request metadata)
            (observed_execute elapsed client planned_id result_id model report_id clock g.graph
              request metadata o)
  observed_execute-IsTransparent report_id clock log_output telemetry cfg llm_client tools g request
        metadata n a b o e h ra rb s =
      (
        built-sequential log_output (some telemetry) cfg llm_client tools g e h,
        sequential-IsTransparent report_id clock g.graph request metadata n a b o ra rb s,
      )
