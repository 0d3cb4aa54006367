-- ===== src/Watch.antt =====
-- The health monitor and the metrics collector of the worker pool, pkg/workflow/health_monitor.go and
-- pkg/workflow/metrics_collector.go. `Start` runs its check at every tick.
pub mod Restarts
pub mod Totals
mod Examples
use open_research_agent.Base.{
  ℕ, zero, suc, ◌*◌, Bool, ◌&&◌, ℤ, pos, pos_part, ◌+ℤ◌, ◌-ℤ◌, ltb_ℤ, leb_ℤ, eqb_ℤ, int64, int32,
  float_100, if◌then◌else◌, Float64, FloatOps, float_zero, second,
}
use open_research_agent.Monitor.{div_ℤ}
use open_research_agent.Pool.{WorkerPool}

-- `NewHealthMonitor` and `NewMetricsCollector` replace an interval that is not positive.
abbrev pub health_interval : ℤ → ℤ
health_interval interval = if leb_ℤ interval (pos 0) then pos (10 * second) else interval

abbrev pub metrics_interval : ℤ → ℤ
metrics_interval interval = if leb_ℤ interval (pos 0) then pos (5 * second) else interval

-- The loop of `restartWorkers`: each round starts the goroutine of a new worker, and counts it. The list
-- of the pool's workers, to which it is added, is not in the model.
unfoldable pub restart_workers : ℕ → WorkerPool → WorkerPool
restart_workers zero p = p
restart_workers (suc n) p = restart_workers n (record p {
  metrics = record p.metrics { active_workers = int32 (p.metrics.active_workers +ℤ pos 1) };
})

-- `checkHealth`, with the number of the workers that it starts. The check of the single workers only
-- logs.
unfoldable pub check_health : WorkerPool → WorkerPool × ℕ
unfolding restart_workers
check_health p =
    let expected = int32 p.config.max_workers in
    let diff = int32 (expected -ℤ p.metrics.active_workers) in
    if ltb_ℤ p.metrics.active_workers expected && p.running
    then (restart_workers (pos_part diff) p, pos_part diff)
    else (p, 0)

pub record HealthStatus : Type 0 where
  pub healthy : Bool
  pub active_workers : ℤ
  pub expected_workers : ℤ
  pub queue_depth : ℤ
  pub tasks_completed : ℤ
  pub tasks_failed : ℤ
  pub average_processing_time : ℤ

-- The average over the completed tasks.
abbrev pub average_time : WorkerPool → ℤ
average_time p =
    let average = div_ℤ p.metrics.total_process_time p.metrics.tasks_completed in
    if ltb_ℤ (pos 0) p.metrics.tasks_completed then average else pos 0

unfoldable pub get_health_status : WorkerPool → HealthStatus
get_health_status p = record {
  healthy = eqb_ℤ p.metrics.active_workers (int32 p.config.max_workers);
  active_workers = p.metrics.active_workers;
  expected_workers = int32 p.config.max_workers;
  queue_depth = p.metrics.queue_depth;
  tasks_completed = p.metrics.tasks_completed;
  tasks_failed = p.metrics.tasks_failed;
  average_processing_time = average_time p;
}

pub record MetricsSummary : Type 0 where
  pub tasks_queued : ℤ
  pub tasks_processing : ℤ
  pub tasks_completed : ℤ
  pub tasks_failed : ℤ
  pub active_workers : ℤ
  pub queue_depth : ℤ
  pub average_processing_time : ℤ
  pub success_rate : Float64

unfoldable pub get_metrics_summary : FloatOps → WorkerPool → MetricsSummary
get_metrics_summary float p =
    let total = int64 (p.metrics.tasks_completed +ℤ p.metrics.tasks_failed) in
    let rate =
      float.mul (float.div (float.of_int p.metrics.tasks_completed) (float.of_int total))
        float_100 in
    record {
      tasks_queued = p.metrics.tasks_queued;
      tasks_processing = p.metrics.tasks_processing;
      tasks_completed = p.metrics.tasks_completed;
      tasks_failed = p.metrics.tasks_failed;
      active_workers = p.metrics.active_workers;
      queue_depth = p.metrics.queue_depth;
      average_processing_time = average_time p;
      success_rate = if ltb_ℤ (pos 0) total then rate else float_zero;
    }

-- The running totals that `collectMetrics` adds to the two counters of the telemetry at every tick.
unfoldable pub collect_metrics : WorkerPool → ℤ × ℤ → ℤ × ℤ
collect_metrics p (completed_counter, failed_counter) = (
  int64 (completed_counter +ℤ p.metrics.tasks_completed),
  int64 (failed_counter +ℤ p.metrics.tasks_failed),
)
