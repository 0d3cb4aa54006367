-- ===== src/Graph/Looping.antt =====
-- The research loop with telemetry, pkg/workflow/graph.go.
use open_research_agent.Base.{
  ℕ, zero, suc, ◌+◌, ◌*◌, ◌≡◌, refl, List, [], ◌∷◌, ℤ, pos, ◌+ℤ◌, ◌-ℤ◌, int64, IsInt64, arith, some,
  none, Option, String, if◌then◌else◌, codes, Float64, Instant, float_0_7,
}
use open_research_agent.Domain.{ResearchTask, Message, ChatOptions, in_progress}
use open_research_agent.State.{get_phase, update_task}
use open_research_agent.State.Pending.{get_next_pending_task}
use open_research_agent.Worker.{ChatOutcome, answered, chat_failed, chat_panicked}
use open_research_agent.Observability.{
  phrase_of, with_metrics, Observations, start_span, record_task_started, record_task_complete,
}
use open_research_agent.Graph.{
  Run, done, and_then, supervisor_node, research_messages, options, research_with, research_next,
  researcher_node, research_loop, is_compression,
}
use open_research_agent.Graph.Watching.{
  follow-Watches, Stands, Watches, if-Watches, done-Watches, node-Watches, step-Watches,
}
use open_research_agent.Graph.Telemetry.{
  finish_research, observed_research, observed_then, observed_step, observed_researcher_node,
  observed_loop,
}

-- A gauge that is raised and lowered again.
pub int64-raised : (b : ℤ) → IsInt64 b → int64 (int64 (b +ℤ pos 1) -ℤ pos 1) ≡ b
unfolding int64
int64-raised b h = ground arith

pub int64-restored : (b c : ℤ) → IsInt64 b → c ≡ b → int64 (int64 (c +ℤ pos 1) -ℤ pos 1) ≡ b
int64-restored b c h e = rw e (int64-raised b h)

module _ (elapsed : ℕ → Float64) (client : ℕ → List Message → ChatOptions → ChatOutcome)
    (planned_id : Instant → String) (result_id : String → Instant → String) (model : String) (n : ℕ)
    (a b : ℤ) (range : IsInt64 b) where
  -- The research of a task, by the client's outcome.
  researched-Watches :
      (clock : ℕ → Instant) (task : ResearchTask) (r : Run) (outcome : ChatOutcome)
      (o : Observations)
      → Stands n a b o
      → Watches n a b (research_with client planned_id result_id clock task r outcome) (record {
        result = research_with client planned_id result_id clock task r outcome;
        observations = finish_research elapsed outcome (
            start_span
              (codes "research.execute")
              (("task.id", phrase_of task.id) ∷ ("task.topic", phrase_of task.topic) ∷ [])
              (with_metrics record_task_started o));
      })
  unfolding research_with finish_research record_task_started record_task_complete
  researched-Watches clock task r (answered response) o s = record {
    same_result = refl;
    spans_left = rw s.spans_open refl;
    requests_left = s.requests_active;
    tasks_left = int64-restored b o.metrics.active_task_count range s.tasks_active;
  }
  researched-Watches clock task r (chat_failed err) o s = record {
    same_result = refl;
    spans_left = rw s.spans_open refl;
    requests_left = s.requests_active;
    tasks_left = int64-restored b o.metrics.active_task_count range s.tasks_active;
  }
  researched-Watches clock task r chat_panicked o s = record {
    same_result = refl;
    spans_left = rw s.spans_open refl;
    requests_left = s.requests_active;
    tasks_left = tt;
  }

  research_next-Watches :
      (clock : ℕ → Instant) (found : Option ResearchTask) (r : Run) (o : Observations)
      → Stands n a b o
      → Watches n a b
          (research_next client planned_id result_id clock found r)
          (observed_research elapsed client planned_id result_id model clock found r o)
  unfolding research_next observed_research
  research_next-Watches clock none r o s = done-Watches elapsed n a b r o s
  research_next-Watches clock (some task) r o s =
      researched-Watches clock task
        (record r {
          state = update_task (clock 0) task.id (λ t. record t { status = in_progress }) r.state;
        })
        (client r.calls (research_messages task) (options float_0_7 2000)) o s

module _ (elapsed : ℕ → Float64) (client : ℕ → List Message → ChatOptions → ChatOutcome)
    (planned_id : Instant → String) (result_id : String → Instant → String) (model : String) (n : ℕ)
    (a b : ℤ) (range : IsInt64 b) where
  researcher_node-Watches :
      (clock : ℕ → Instant) (r : Run) (o : Observations)
      → Stands n a b o
      → Watches n a b
          (researcher_node client planned_id result_id clock r)
          (observed_researcher_node elapsed client planned_id result_id model clock r o)
  unfolding researcher_node observed_researcher_node
  researcher_node-Watches clock r o s =
      let found = get_next_pending_task r.state.tasks in
      node-Watches elapsed n a b "researcher" "research"
        (research_next client planned_id result_id clock found r)
        (observed_research elapsed client planned_id result_id model clock found r) o
        (λ p t.
          research_next-Watches elapsed client planned_id result_id model (suc n) a b range clock
            found r p t)
        s

  pub loop-Watches :
      (clock : ℕ → ℕ → Instant) (left i : ℕ) (r : Run) (o : Observations)
      → Stands n a b o
      → Watches n a b
          (research_loop client planned_id result_id clock left i r)
          (observed_loop elapsed client planned_id result_id model clock left i r o)
  unfolding research_loop observed_loop
  loop-Watches clock zero i r o s = done-Watches elapsed n a b r o s
  loop-Watches clock (suc left) i r o s =
      let change = supervisor_node (clock (2 * i)) in
      let research = researcher_node client planned_id result_id (clock (2 * i + 1)) in
      let observed =
        observed_researcher_node elapsed client planned_id result_id model (clock (2 * i + 1)) in
      let loop = research_loop client planned_id result_id clock left (suc i) in
      let observed_rest =
        observed_loop elapsed client planned_id result_id model clock left (suc i) in
      follow-Watches elapsed n a b (done (record r { state = change r.state }))
        (observed_step elapsed "supervisor" "research" change r o)
        (λ q.
          let rest = and_then (research q) loop in
          if is_compression (get_phase q.state) then done q else rest)
        (λ q p.
          let rest = observed_then (observed q p) observed_rest in
          if is_compression (get_phase q.state)
          then record { result = done q; observations = p }
          else rest)
        (step-Watches elapsed n a b "supervisor" "research" change r o s)
        (λ q p t.
          if-Watches elapsed n a b (is_compression (get_phase q.state)) (done q)
            (and_then (research q) loop) (record { result = done q; observations = p })
            (observed_then (observed q p) observed_rest) (done-Watches elapsed n a b q p t)
            (follow-Watches elapsed n a b (research q) (observed q p) loop observed_rest
              (researcher_node-Watches (clock (2 * i + 1)) q p t)
              (loop-Watches clock left (suc i))))
