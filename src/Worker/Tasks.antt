-- ===== src/Worker/Tasks.antt =====
-- What a task that a worker processes leaves in the workflow state, in the breaker and in the pool.
use open_research_agent.Base.{
  ℕ, ◌≡◌, refl, sym, subst, inl, inr, List, [], ◌∷◌, ◌++◌, true, false, Bool-cases, pos, ◌+ℤ◌,
  int64, some, none, Option, String, str_eq, if◌then◌else◌, FloatOps, Instant,
}
use open_research_agent.Domain.{ResearchResult}
use open_research_agent.Breaker.{
  can_execute, CircuitBreaker, CircuitBreakerState, Call, closed, probed, succeeded, failed,
}
use open_research_agent.Breaker
use open_research_agent.Breaker.Invariant.{Inv, run-Inv}
use open_research_agent.State.{GraphState, get_task, task_or_fresh}
use open_research_agent.Pool.{
  WorkerPool, WorkerTask, TaskOutcome, processed, processing_failed, moved, report, report_result,
  has_space,
}
use open_research_agent.Worker.{
  Worker, Meets, ChatOutcome, answered, chat_failed, chat_panicked, generate_summary, process_task,
  perform_health_check, complete_with, conclude, execute_research, track_memory,
}
use open_research_agent.Worker.Health.{Event, task_comes, check_comes, happen, happen_all}

module _ (float : FloatOps) (result_id : String → String → Instant → String)
    (source_of : String → String) where
  -- The state `g'` is `g` with the task completed by `r` at `now`, and `r` behind the results.
  pub record IsResearched (g : GraphState) (task_id : String) (now : ℕ) (r : ResearchResult)
      (g' : GraphState) : Type 0 where
    pub task_known : r.task_id ≡ task_id
    pub summarized : r.summary ≡ generate_summary r.content
    pub kept : g'.results ≡ g.results ++ r ∷ []
    pub tasks_after :
        (other : String)
        → get_task other g' ≡ (
            if str_eq task_id other
            then some (
                complete_with float result_id source_of now r
                  (task_or_fresh (get_task task_id g) task_id now))
            else get_task other g)

  -- What a call of `ProcessTask` can end with.
  abbrev pub Ends : GraphState → String → ℕ → Option GraphState × TaskOutcome → Type 0
  Ends g task_id now (s, processed (some r)) =
      (g' : GraphState) × (s ≡ some g') × IsResearched g task_id now r g'
  Ends g task_id now (s, processed none) = s ≡ some g
  Ends g task_id now (s, processing_failed err) = s ≡ some g

  -- The worker that takes a task.
  abbrev admitted : Meets → Worker → Worker
  admitted e w = record w {
    memory_usage = int64 (pos e.alloc_before);
    is_healthy = true;
    breaker = (can_execute e.started w.breaker).0;
  }

  -- The one call that the end of a task makes.
  conclude-call :
      (e : Meets) (w : Worker) (task : WorkerTask) (chat : ChatOutcome) (now : ℕ)
      (s : Option GraphState)
      → (c : Call) × ((conclude float result_id source_of e w s
            (execute_research float result_id source_of w task now chat s)).0.breaker
          ≡ Breaker.step w.breaker c)
  unfolding conclude execute_research track_memory Breaker.step
  conclude-call e w task (answered answer) now s = (succeeded, refl)
  conclude-call e w task (chat_failed err) now s = (failed e.ended, refl)
  conclude-call e w task chat_panicked now s = (failed e.ended, refl)

  process_task-calls :
      (e : Meets) (task : WorkerTask) (w : Worker) (s : Option GraphState)
      → (cs : List Call) × ((process_task float result_id source_of e task w s).0.breaker
          ≡ Breaker.run w.breaker cs)
  unfolding process_task Breaker.run Breaker.step track_memory
  process_task-calls e task w s = elim (Bool-cases (can_execute e.started w.breaker).1) [
    | inr shut ↦ (probed e.started ∷ [], rw shut refl)
    | inl allowed ↦ elim (Bool-cases w.is_healthy) [
      | inr ill ↦ (probed e.started ∷ [], rw allowed (rw ill refl))
      | inl well ↦
          let (c, same) = conclude-call e (admitted e w) task e.chat e.answered_at s in
          (probed e.started ∷ c ∷ [], rw allowed (rw well same))
    ]
  ]

  happen-Inv :
      (e : Event) (w : Worker) (s : Option GraphState)
      → Inv w.breaker
      → Inv (happen float result_id source_of e w s).0.breaker
  unfolding happen perform_health_check
  happen-Inv (task_comes e task) w s v =
      let (cs, same) = process_task-calls e task w s in
      subst Inv (sym same) (run-Inv w.breaker cs v)
  happen-Inv (check_comes now) w s v = v

  panicked_outcome :
      (e : Meets) (task : WorkerTask) (w : Worker) (s : Option GraphState)
      → e.chat ≡ chat_panicked
      → w.is_healthy ≡ true
      → w.breaker.state ≡ closed
      → (process_task float result_id source_of e task w s).2 ≡ processed none
  unfolding process_task can_execute conclude execute_research
  panicked_outcome e task w s chat well shut = rw shut (rw well (rw chat refl))

  -- Whatever tasks and health checks a worker sees, its breaker keeps the breaker's invariant: the
  -- worker uses it by its interface only.
  pub happen_all-Inv :
      (es : List Event) (w : Worker) (s : Option GraphState)
      → Inv w.breaker
      → Inv (happen_all float result_id source_of es w s).0.breaker
  unfolding happen_all
  happen_all-Inv [] w s v = v
  happen_all-Inv (e ∷ es) w s v =
      let (w', s', done) = happen float result_id source_of e w s in
      happen_all-Inv es w' s' (happen-Inv e w s v)

  -- A worker whose client panics returns no result and no error, and the pool counts the task as
  -- completed: it sends an empty result and does not try the task again.
  pub panic_counts_as_completed :
      (e : Meets) (task : WorkerTask) (w : Worker) (s : Option GraphState) (p : WorkerPool)
      (others : List (WorkerTask × TaskOutcome))
      → e.chat ≡ chat_panicked
      → w.is_healthy ≡ true
      → w.breaker.state ≡ closed
      → p.results_closed ≡ false
      → has_space p.config p.result_ch ≡ true
      → let out = (process_task float result_id source_of e task w s).2 in
        (q : WorkerPool) × (report (some ((task, out), others)) p ≡ moved q)
        × (q.metrics.tasks_completed ≡ int64 (p.metrics.tasks_completed +ℤ pos 1))
        × (q.metrics.tasks_failed ≡ p.metrics.tasks_failed)
        × (q.result_ch ≡ p.result_ch ++ none ∷ [])
        × (q.retrying ≡ p.retrying)
  panic_counts_as_completed e task w s p others chat well shut open_ch space =
      let none_out : (process_task float result_id source_of e task w s).2 ≡ processed none =
        panicked_outcome e task w s chat well shut in
      rw none_out
        (unfold report report_result in (rw open_ch (_, refl, refl, refl, rw space refl, refl)))
