-- ===== src/Worker/Health.antt =====
-- What a worker's health check can mend.
use open_research_agent.Base.{
  ◌*◌, ◌≡◌, refl, ◌∙◌, List, [], ◌∷◌, ◌++◌, false, pos, ◌<ℤ◌, arith, All, Option, String,
  All-append, FloatOps, Instant,
}
use open_research_agent.Pool.{WorkerTask, TaskOutcome, processing_failed}
use open_research_agent.State.{GraphState}
use open_research_agent.Worker.{Worker, Meets, process_task, perform_health_check}

-- What happens to a worker: a task, or a health check.
pub data Event : Type 0 where
  task_comes : Meets → WorkerTask → Event
  check_comes : Instant → Event

-- The worker has too much memory to its name, and a check has noticed it.
pub record IsStuck (w : Worker) : Type 0 where
  pub unhealthy : w.is_healthy ≡ false
  pub too_large : pos (50 * 1024 * 1024) <ℤ w.memory_usage

abbrev pub IsFailure : TaskOutcome → Type 0
IsFailure (processing_failed err) = Unit
IsFailure _ = ⊥

module _ (float : FloatOps) (result_id : String → String → Instant → String)
    (source_of : String → String) where
  -- The worker after the event, with the state and the outcome of each task.
  unfoldable pub happen :
      Event → Worker → Option GraphState → Worker × Option GraphState × List TaskOutcome
  happen (task_comes e task) w s =
      let (w', s', outcome) = process_task float result_id source_of e task w s in
      (w', s', outcome ∷ [])
  happen (check_comes now) w s = (perform_health_check now w, s, [])

  unfoldable pub happen_all :
      List Event → Worker → Option GraphState → Worker × Option GraphState × List TaskOutcome
  unfolding happen
  happen_all [] w s = (w, s, [])
  happen_all (e ∷ es) w s =
      let (w', s', done) = happen e w s in
      let (w'', s'', rest) = happen_all es w' s' in (w'', s'', done ++ rest)

  happen-IsStuck :
      (e : Event) (w : Worker) (s : Option GraphState)
      → IsStuck w
      → let (w', s', outcomes) = happen e w s in IsStuck w' × (s' ≡ s) × All IsFailure outcomes
  unfolding happen process_task perform_health_check
  happen-IsStuck (task_comes e task) w s h = ground arith
  happen-IsStuck (check_comes now) w s h = ground arith

  -- A worker whose memory counts as too large, and which a health check has found so, stays
  -- unhealthy: whatever tasks and health checks come, every task fails and changes nothing, since the
  -- memory is measured only by a task that a healthy worker takes.
  pub worker_never_recovers :
      (es : List Event) (w : Worker) (s : Option GraphState)
      → IsStuck w
      → let (w', s', outcomes) = happen_all es w s in IsStuck w' × (s' ≡ s) × All IsFailure outcomes
  unfolding happen_all
  worker_never_recovers [] w s h = (h, refl, tt)
  worker_never_recovers (e ∷ es) w s h =
      let (h', same, failed) = happen-IsStuck e w s h in
      let (h'', same', failed') = worker_never_recovers es (happen e w s).0 (happen e w s).1 h' in
      (h'', same' ∙ same, All-append IsFailure (happen e w s).2 _ (failed, failed'))
