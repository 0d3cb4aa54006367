-- ===== src/Researcher/Tracker.antt =====
-- The pool's metrics and its task tracker, pkg/workflow/pool_metrics.go and pool_task_tracker.go. The
-- tracker is the metrics' one client but for the submissions. Unix time, the decimals of a float64
-- and a date's text are parameters.
use open_research_agent.Base.{
  List, [], ◌∷◌, ℤ, pos, ◌+ℤ◌, ◌-ℤ◌, eqb_ℤ, int64, some, none, Option, String, if◌then◌else◌,
  Float64, FloatOps, float_zero, Instant, float_1e9,
}
use open_research_agent.Base.GoMap.{lookup, insert, erase}
use open_research_agent.Domain.{ResearchTask, ResearchResult}

pub record PoolMetrics : Type 0 where
  pub tasks_queued : ℤ  -- int64, as the others
  pub tasks_processing : ℤ
  pub tasks_completed : ℤ
  pub tasks_failed : ℤ
  pub total_task_duration : ℤ
  pub last_completion_time : ℤ

abbrev pub new_pool_metrics : PoolMetrics
new_pool_metrics = record {
  tasks_queued = pos 0;
  tasks_processing = pos 0;
  tasks_completed = pos 0;
  tasks_failed = pos 0;
  total_task_duration = pos 0;
  last_completion_time = pos 0;
}

abbrev pub increment_tasks_queued : PoolMetrics → PoolMetrics
increment_tasks_queued m = record m { tasks_queued = int64 (m.tasks_queued +ℤ pos 1) }

abbrev pub decrement_tasks_queued : PoolMetrics → PoolMetrics
decrement_tasks_queued m = record m { tasks_queued = int64 (m.tasks_queued -ℤ pos 1) }

abbrev pub increment_tasks_processing : PoolMetrics → PoolMetrics
increment_tasks_processing m = record m { tasks_processing = int64 (m.tasks_processing +ℤ pos 1) }

abbrev pub decrement_tasks_processing : PoolMetrics → PoolMetrics
decrement_tasks_processing m = record m { tasks_processing = int64 (m.tasks_processing -ℤ pos 1) }

abbrev pub increment_tasks_completed : PoolMetrics → PoolMetrics
increment_tasks_completed m = record m { tasks_completed = int64 (m.tasks_completed +ℤ pos 1) }

abbrev pub increment_tasks_failed : PoolMetrics → PoolMetrics
increment_tasks_failed m = record m { tasks_failed = int64 (m.tasks_failed +ℤ pos 1) }

abbrev pub add_task_duration : ℤ → PoolMetrics → PoolMetrics
add_task_duration duration m = record m {
  total_task_duration = int64 (m.total_task_duration +ℤ duration);
}

pub record TaskTracking : Type 0 where
  pub task_id : String
  pub worker_id : String
  pub start_time : Instant
  pub topic : String

pub record PoolTaskTracker : Type 0 where
  pub active_tasks : List (String × TaskTracking)
  pub metrics : PoolMetrics

abbrev pub new_pool_task_tracker : PoolTaskTracker
new_pool_task_tracker = record { active_tasks = []; metrics = new_pool_metrics }

abbrev pub tracking_of : Instant → ResearchTask → String → TaskTracking
tracking_of now task worker_id = record {
  task_id = task.id;
  worker_id = worker_id;
  start_time = now;
  topic = task.topic;
}

unfoldable pub register_task_start :
    Instant → ResearchTask → String → PoolTaskTracker → PoolTaskTracker
register_task_start now task worker_id t = record {
  active_tasks = insert task.id (tracking_of now task worker_id) t.active_tasks;
  metrics = increment_tasks_processing (decrement_tasks_queued t.metrics);
}

-- `time.Since(tracking.StartTime)`.
abbrev pub time_since : Instant → Instant → ℤ
time_since now start = pos now -ℤ pos start

unfoldable pub fail_active : Option TaskTracking → String → PoolTaskTracker → PoolTaskTracker
fail_active none task_id t = t
fail_active (some tracking) task_id t = record {
  active_tasks = erase task_id t.active_tasks;
  metrics = increment_tasks_failed (decrement_tasks_processing t.metrics);
}

-- `TrackTaskError`.
unfoldable pub track_task_error : String → PoolTaskTracker → PoolTaskTracker
unfolding fail_active
track_task_error task_id t = fail_active (lookup task_id t.active_tasks) task_id t

module _ (unix : Instant → ℤ) where
  abbrev pub update_last_completion_time : Instant → PoolMetrics → PoolMetrics
  update_last_completion_time now m = record m { last_completion_time = unix now }

  unfoldable pub complete_active :
      Instant → Option TaskTracking → String → PoolTaskTracker → PoolTaskTracker
  complete_active now none task_id t = t
  complete_active now (some tracking) task_id t = record {
    active_tasks = erase task_id t.active_tasks;
    metrics = update_last_completion_time now (
        increment_tasks_completed (
          decrement_tasks_processing
            (add_task_duration (time_since now tracking.start_time) t.metrics)));
  }

  -- `TrackTaskCompletion`.
  unfoldable pub track_task_completion :
      Instant → ResearchResult → PoolTaskTracker → PoolTaskTracker
  unfolding complete_active
  track_task_completion now result t =
      complete_active now (lookup result.task_id t.active_tasks) result.task_id t

-- One entry of `GetActiveTasks`, its duration in nanoseconds.
pub record ActiveTask : Type 0 where
  pub task_id : String
  pub worker_id : String
  pub topic : String
  pub duration : ℤ

unfoldable pub get_active_tasks : Instant → List (String × TaskTracking) → List ActiveTask
get_active_tasks now [] = []
get_active_tasks now ((k, tracking) ∷ range) =
    record {
      task_id = tracking.task_id;
      worker_id = tracking.worker_id;
      topic = tracking.topic;
      duration = time_since now tracking.start_time;
    }
    ∷ get_active_tasks now range

-- `GetAverageTaskDuration`, in seconds.
unfoldable pub get_average_task_duration : FloatOps → PoolMetrics → Float64
get_average_task_duration float m =
    let total = int64 (m.tasks_completed +ℤ m.tasks_failed) in
    if eqb_ℤ total (pos 0)
    then float_zero
    else float.div (float.div (float.of_int m.total_task_duration) (float.of_int total)) float_1e9
