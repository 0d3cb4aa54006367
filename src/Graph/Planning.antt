-- ===== src/Graph/Planning.antt =====
-- The clarify and planning nodes with telemetry, pkg/workflow/graph.go.
use open_research_agent.Base.{
  ℕ, suc, ◌≡◌, refl, ◌∙◌, List, [], ◌∷◌, ℤ, String, Float64, Instant, float_0_3, float_0_5,
}
use open_research_agent.Domain.{ResearchTask, Message, ChatOptions}
use open_research_agent.Worker.{ChatOutcome, answered, chat_failed, chat_panicked}
use open_research_agent.Observability.{
  instrument_llm_call, Observations, Observed, Metrics, record_task_created,
}
use open_research_agent.Graph.{
  Run, NodeResult, clarify_with, clarify_node, clarify_messages, planning_messages, options,
  plan_with, planning_node, parse_tasks_from_response,
}
use open_research_agent.Graph.Watching.{Stands, Watches, Restores, node-Watches, call-Stands}
use open_research_agent.Graph.Telemetry.{
  created_by, record_created, observed_call, observed_clarify_node, observed_planning_node,
}

module _ (elapsed : ℕ → Float64) (client : ℕ → List Message → ChatOptions → ChatOutcome)
    (planned_id : Instant → String) (result_id : String → Instant → String) (model : String) (n : ℕ)
    (a b : ℤ) where
  abbrev IsWatched : NodeResult → Observed NodeResult → Type 0
  IsWatched plain seen = Watches n a b plain seen

  -- The observations after a call of the client.
  abbrev called : ℕ → List Message → ChatOptions → Observations → Observations
  called calls messages opts o =
      let seen : Observed ChatOutcome =
        observed_call elapsed client planned_id result_id model calls messages opts o in
      seen.observations

  -- What a call's outcome makes of a run restores the gauge.
  clarify_with-Restores :
      (clock : ℕ → Instant) (r : Run) (outcome : ChatOutcome) (c : ℤ)
      → c ≡ b
      → Restores (clarify_with client planned_id result_id clock r outcome) b c
  unfolding clarify_with
  clarify_with-Restores clock r (answered response) c e = e
  clarify_with-Restores clock r (chat_failed err) c e = e
  clarify_with-Restores clock r chat_panicked c e = tt

  plan_with-Restores :
      (clock : ℕ → Instant) (r : Run) (outcome : ChatOutcome) (c : ℤ)
      → c ≡ b
      → Restores (plan_with client planned_id result_id clock r outcome) b c
  unfolding plan_with
  plan_with-Restores clock r (answered response) c e = e
  plan_with-Restores clock r (chat_failed err) c e = e
  plan_with-Restores clock r chat_panicked c e = tt

  pub clarify_node-Watches :
      (clock : ℕ → Instant) (r : Run) (o : Observations)
      → Stands n a b o
      → IsWatched
          (clarify_node client planned_id result_id clock r)
          (observed_clarify_node elapsed client planned_id result_id model clock r o)
  unfolding clarify_node observed_clarify_node observed_call instrument_llm_call
  clarify_node-Watches clock r o s =
      let messages = clarify_messages r.state.request in
      let opts = options float_0_3 500 in
      let outcome = client r.calls messages opts in
      node-Watches elapsed n a b "clarify" "clarification"
        (clarify_with client planned_id result_id clock r outcome)
        (λ p. record {
          result = clarify_with client planned_id result_id clock r outcome;
          observations = called r.calls messages opts p;
        })
        o
        (λ p t.
          let u =
            call-Stands elapsed (suc n) a b client planned_id result_id model r.calls messages opts
              p t in
          record {
            same_result = refl;
            spans_left = u.spans_open;
            requests_left = u.requests_active;
            tasks_left = clarify_with-Restores clock r outcome _ u.tasks_active;
          })
        s

  record_created-gauges :
      (tasks : List ResearchTask) (m : Metrics)
      → ((record_created tasks m).active_research_count ≡ m.active_research_count)
        × ((record_created tasks m).active_task_count ≡ m.active_task_count)
  unfolding record_created record_task_created
  record_created-gauges [] m = (refl, refl)
  record_created-gauges (task ∷ tasks) m =
      record_created-gauges tasks (record_task_created "research" m)

  created_by-Stands :
      (now : Instant) (outcome : ChatOutcome) (o : Observations)
      → Stands (suc n) a b o
      → Stands (suc n) a b (record o {
        metrics = created_by elapsed client planned_id result_id model now outcome o.metrics;
      })
  unfolding created_by
  created_by-Stands now (answered response) o s =
      let kept =
        record_created-gauges
          (parse_tasks_from_response client planned_id result_id now response.content) o.metrics in
      record {
        spans_open = s.spans_open;
        requests_active = kept.0 ∙ s.requests_active;
        tasks_active = kept.1 ∙ s.tasks_active;
      }
  created_by-Stands now (chat_failed err) o s = s
  created_by-Stands now chat_panicked o s = s

  pub planning_node-Watches :
      (clock : ℕ → Instant) (r : Run) (o : Observations)
      → Stands n a b o
      → IsWatched
          (planning_node client planned_id result_id clock r)
          (observed_planning_node elapsed client planned_id result_id model clock r o)
  unfolding planning_node observed_planning_node observed_call instrument_llm_call
  planning_node-Watches clock r o s =
      let messages = planning_messages r.state.request in
      let opts = options float_0_5 1000 in
      let outcome = client r.calls messages opts in
      node-Watches elapsed n a b "planning" "planning"
        (plan_with client planned_id result_id clock r outcome)
        (λ p. record {
          result = plan_with client planned_id result_id clock r outcome;
          observations = record (called r.calls messages opts p) {
            metrics =
                created_by elapsed client planned_id result_id model (clock 0) outcome
                  (called r.calls messages opts p).metrics;
          };
        })
        o
        (λ p t.
          let u = created_by-Stands (clock 0) outcome (called r.calls messages opts p) (
            call-Stands elapsed (suc n) a b client planned_id result_id model r.calls messages opts
              p t) in
          record {
            same_result = refl;
            spans_left = u.spans_open;
            requests_left = u.requests_active;
            tasks_left = plan_with-Restores clock r outcome _ u.tasks_active;
          })
        s
