-- ===== src/Researcher/Stats.antt =====
-- A researcher worker and the statistics of the researcher pool, pkg/workflow/researcher_worker.go,
-- pkg/workflow/researcher_pool.go and pkg/workflow/pool_metrics.go. The text of a date is a parameter. To
-- ask a worker whether it is healthy is a probe of its circuit breaker, so that statistics change it.
use open_research_agent.Base.{
  ℕ, ◌≡◌, List, [], ◌∷◌, Bool, ℤ, pos, eqb_ℤ, some, none, Option, String, if◌then◌else◌, length,
  Float64, FloatOps, Instant, All, ◌<◌, since, arith,
}
use open_research_agent.Researcher.Health.{
  ask_breaker, WorkerHealthManager, HealthReport, new_worker_health_manager, ask_healthy,
  get_health_status,
}
use open_research_agent.Researcher.Metrics.{
  WorkerMetrics, ResearcherStats, new_worker_metrics, get_stats,
}
use open_research_agent.Researcher.Tracker.{
  PoolMetrics, TaskTracking, ActiveTask, get_active_tasks, get_average_task_duration,
}
use open_research_agent.Researcher.Pool.{ResearcherPool}
use open_research_agent.Breaker.{
  can_execute, can_execute_in, CircuitBreakerState, CircuitBreaker, closed, half_open, open_state,
}

pub record ResearcherWorker : Type 0 where
  pub id : String
  pub health : WorkerHealthManager
  pub metrics : WorkerMetrics

unfoldable pub new_researcher_worker : String → Instant → ResearcherWorker
unfolding new_worker_health_manager
new_researcher_worker id now = record {
  id = id;
  health = new_worker_health_manager id now;
  metrics = new_worker_metrics id;
}

pub record PoolSnapshot : Type 0 where
  pub tasks_queued : ℤ
  pub tasks_processing : ℤ
  pub tasks_completed : ℤ
  pub tasks_failed : ℤ
  pub avg_task_duration : Float64
  pub last_completion : String

-- An entry for a worker.
pub record WorkerEntry : Type 0 where
  pub id : String
  pub healthy : Bool
  pub tasks_processed : ℤ
  pub success_rate : Float64
  pub avg_confidence : Float64

pub record PoolStats : Type 0 where
  pub running : Bool
  pub snapshot : PoolSnapshot
  pub queue_depth : ℕ
  pub active_tasks : List ActiveTask
  pub workers : List WorkerEntry

module _ (float : FloatOps) (unix : Instant → ℤ) (to_uint64 : Float64 → ℕ)
    (date : Option ℤ → String) where
  -- `GetLastCompletionTime`: the zero time when no task has completed.
  abbrev pub get_last_completion_time : PoolMetrics → Option ℤ
  get_last_completion_time m =
      if eqb_ℤ m.last_completion_time (pos 0) then none else some m.last_completion_time

  unfoldable pub get_metrics_snapshot : PoolMetrics → PoolSnapshot
  unfolding get_average_task_duration
  get_metrics_snapshot m = record {
    tasks_queued = m.tasks_queued;
    tasks_processing = m.tasks_processing;
    tasks_completed = m.tasks_completed;
    tasks_failed = m.tasks_failed;
    avg_task_duration = get_average_task_duration float m;
    last_completion = date (get_last_completion_time m);
  }

  abbrev pub entry_of : ResearcherWorker → Bool → WorkerEntry
  entry_of w healthy =
      let stats = get_stats float unix to_uint64 w.metrics in
      record {
        id = w.id;
        healthy = healthy;
        tasks_processed = stats.tasks_processed;
        success_rate = stats.success_rate;
        avg_confidence = stats.avg_confidence;
      }

  -- The loop over the workers.
  unfoldable pub worker_entries :
      Instant → List ResearcherWorker → List ResearcherWorker × List WorkerEntry
  unfolding ask_healthy
  worker_entries now [] = ([], [])
  worker_entries now (w ∷ workers) =
      let (asked, healthy) = ask_healthy now w.health in
      let (others, entries) = worker_entries now workers in
      (record w { health = asked } ∷ others, entry_of w healthy ∷ entries)

  -- `GetStats`, with the order of the range over the active tasks; the number of the workers is
  -- overwritten by their entries.
  unfoldable pub get_pool_stats :
      Instant
      → List (String × TaskTracking)
      → List ResearcherWorker
      → ResearcherPool
      → List ResearcherWorker × PoolStats
  unfolding get_metrics_snapshot worker_entries get_active_tasks
  get_pool_stats now range workers p =
      let (asked, entries) = worker_entries now workers in
      (
        asked,
        record {
          running = p.running;
          snapshot = get_metrics_snapshot p.task_tracker.metrics;
          queue_depth = length p.task_queue;
          active_tasks = get_active_tasks now range;
          workers = entries;
        },
      )

  -- `GetHealthStatus` of the pool: the report of each worker with its statistics.
  unfoldable pub get_pool_health :
      Instant
      → List ResearcherWorker
      → List ResearcherWorker × List (HealthReport × ResearcherStats)
  unfolding get_health_status get_stats
  get_pool_health now [] = ([], [])
  get_pool_health now (w ∷ workers) =
      let (asked, report) = get_health_status now w.health in
      let (others, reports) = get_pool_health now workers in
      (
        record w { health = asked } ∷ others,
        (report, get_stats float unix to_uint64 w.metrics) ∷ reports,
      )

probe-half_open :
    (s : CircuitBreakerState) (now : Instant) (cb : CircuitBreaker)
    → s ≡ open_state
    → cb.open_state_duration < since now cb.last_failure
    → (can_execute_in s now cb).0.state ≡ half_open
unfolding can_execute_in
probe-half_open closed now cb e h = ground arith
probe-half_open half_open now cb e h = ground arith
probe-half_open open_state now cb e h = ground arith

-- Statistics that are read after the open duration move the open breaker of every worker to half-open,
-- without a task that probes it.
worker_entries-half_open :
    (float : FloatOps) (unix : Instant → ℤ) (to_uint64 : Float64 → ℕ) (date : Option ℤ → String)
    (now : Instant) (workers : List ResearcherWorker)
    → All
        (λ w.
          (w.health.breaker.state ≡ open_state)
          × (w.health.breaker.open_state_duration < since now w.health.breaker.last_failure))
        workers
    → All
        (λ w. w.health.breaker.state ≡ half_open)
        (worker_entries float unix to_uint64 date now workers).0
unfolding worker_entries ask_healthy ask_breaker can_execute
worker_entries-half_open float unix to_uint64 date now [] h = tt
worker_entries-half_open float unix to_uint64 date now (w ∷ workers) ((e, d), h) = (
  probe-half_open w.health.breaker.state now w.health.breaker e d,
  worker_entries-half_open float unix to_uint64 date now workers h,
)
