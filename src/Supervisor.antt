-- ===== src/Supervisor.antt =====
-- The supervisor of pkg/workflow/supervisor.go: the distribution of tasks and the completion events.
-- The prioritizer's sort, the distributor's answer and the clock are arguments; a distribution returns
-- the tasks that it submits to the pool, in order. Each method holds the supervisor's lock.
pub mod History
pub mod Attempts
pub mod Rebalance
mod Waiting
pub mod Moves
mod Examples
use open_research_agent.Base.{
  ◌*◌, List, [], ◌∷◌, ◌++◌, map, Bool, ℤ, pos, ◌+ℤ◌, ltb_ℤ, leb_ℤ, int64, some, none, since, Option,
  String, str_eq, if◌then◌else◌, ltb, Float64, FloatOps, float_one, float_two, float_1_5, float_0_8,
  Instant, minute, float_1_2, float_four,
}
use open_research_agent.Base.GoMap.{lookup, insert}
use open_research_agent.Domain.{ResearchTask, TaskStatus, pending, completed, failed}
use open_research_agent.Distribute.{TaskAssignment, Distribution, assigned, no_workers, index_panic}
use open_research_agent.Monitor.{
  ProgressMonitor, new_progress_monitor, track_task, update_task_status,
}

pub record TaskExecutionHistory : Type 0 where
  pub task_id : String
  pub attempts : ℤ
  pub last_worker : String
  pub start_time : Instant
  pub end_time : Option Instant
  pub status : TaskStatus
  pub error_count : ℤ
  pub last_error : Option String

pub record Supervisor : Type 0 where
  pub monitor : ProgressMonitor
  pub task_queue : List ResearchTask
  pub task_history : List (String × TaskExecutionHistory)
  pub max_retries : ℤ

unfoldable pub new_supervisor : Supervisor
unfolding new_progress_monitor
new_supervisor = record {
  monitor = new_progress_monitor;
  task_queue = [];
  task_history = [];
  max_retries = pos 3;
}

module _ (float : FloatOps) where
  unfoldable pub calculate_priority : Instant → ResearchTask → Float64
  calculate_priority now task =
      let by_priority =
        if leb_ℤ task.priority (pos 1)
        then float.mul float_one float_four
        else if leb_ℤ task.priority (pos 3)
        then float.mul float_one float_two
        else if leb_ℤ task.priority (pos 5)
        then float.mul float_one float_1_5
        else float_one in
      let by_depth =
        if str_eq task.parent_id "" then by_priority else float.mul by_priority float_0_8 in
      if ltb (5 * minute) (since now task.created_at)
      then float.mul by_depth float_1_2
      else by_depth

  module _
      (sort_slice : (ResearchTask → ResearchTask → Bool)
        → List ResearchTask
        → List ResearchTask) where
    unfoldable pub prioritize : Instant → List ResearchTask → List ResearchTask
    unfolding calculate_priority
    prioritize now tasks =
        sort_slice (λ t u. float.lt (calculate_priority now u) (calculate_priority now t)) tasks

abbrev pub new_history : Instant → TaskAssignment → TaskExecutionHistory
new_history now a = record {
  task_id = a.task.id;
  attempts = pos 0;
  last_worker = a.worker_id;
  start_time = now;
  end_time = none;
  status = pending;
  error_count = pos 0;
  last_error = none;
}

unfoldable pub record_assignment : Instant → TaskAssignment → Supervisor → Supervisor
record_assignment now a sv = record sv {
  monitor = track_task now a.task.id a.worker_id sv.monitor;
  task_history = insert a.task.id (new_history now a) sv.task_history;
}

-- The loop of `DistributeTasks` over the assignments.
unfoldable pub record_assignments : Instant → List TaskAssignment → Supervisor → Supervisor
unfolding record_assignment
record_assignments now [] sv = sv
record_assignments now (a ∷ rest) sv = record_assignments now rest (record_assignment now a sv)

-- The supervisor after it, with the tasks that were submitted; the distributor's error; or its panic.
pub data Distributed : Type 0 where
  distributed : Supervisor → List ResearchTask → Distributed
  distribution_failed : Supervisor → Distributed
  distribution_panicked : Supervisor → Distributed

unfoldable pub distribute_as : Instant → Distribution → Supervisor → Distributed
unfolding record_assignments
distribute_as now (assigned done) sv =
    distributed (record_assignments now done sv) (map (λ (a : TaskAssignment). a.task) done)
distribute_as now no_workers sv = distribution_failed sv
distribute_as now index_panic sv = distribution_panicked sv

unfoldable pub distribute_tasks :
    (List ResearchTask → List ResearchTask)
    → (List ResearchTask → Distribution)
    → Instant
    → List ResearchTask
    → Supervisor
    → Distributed
unfolding distribute_as
distribute_tasks prioritized distribution now tasks sv =
    distribute_as now (distribution (prioritized tasks))
      (record sv { task_queue = sv.task_queue ++ tasks })

-- The fields that a failed attempt changes.
abbrev pub after_failure : Instant → String → ℤ → TaskExecutionHistory → TaskExecutionHistory
after_failure now err max_retries h = record h {
  end_time = some now;
  error_count = int64 (h.error_count +ℤ pos 1);
  last_error = some err;
  status = failed;
  attempts = if ltb_ℤ h.attempts max_retries then int64 (h.attempts +ℤ pos 1) else h.attempts;
}

unfoldable pub complete_known :
    Instant → String → Option String → Option TaskExecutionHistory → Supervisor → Supervisor
complete_known now task_id err none sv = sv
complete_known now task_id (some err) (some h) sv = record sv {
  task_history = insert task_id (after_failure now err sv.max_retries h) sv.task_history;
  monitor = update_task_status now task_id failed sv.monitor;
}
complete_known now task_id none (some h) sv = record sv {
  task_history =
      insert task_id (record h { end_time = some now; status = completed }) sv.task_history;
  monitor = update_task_status now task_id completed sv.monitor;
}

-- `HandleTaskCompletion`; `err` is nil for a result.
unfoldable pub handle_task_completion : Instant → String → Option String → Supervisor → Supervisor
unfolding complete_known
handle_task_completion now task_id err sv =
    complete_known now task_id err (lookup task_id sv.task_history) sv

-- A call of the supervisor, with the answer of the distributor in it.
pub data Call : Type 0 where
  distributes : Instant → List ResearchTask → Distribution → Call
  completes : Instant → String → Option String → Call

abbrev pub after_distribution : Distributed → Supervisor
after_distribution (distributed sv tasks) = sv
after_distribution (distribution_failed sv) = sv
after_distribution (distribution_panicked sv) = sv

unfoldable pub step : Call → Supervisor → Supervisor
step (distributes now tasks answer) sv =
    after_distribution (distribute_tasks (λ ts. ts) (λ ts. answer) now tasks sv)
step (completes now task_id err) sv = handle_task_completion now task_id err sv

unfoldable pub run : List Call → Supervisor → Supervisor
run [] sv = sv
run (c ∷ cs) sv = run cs (step c sv)
