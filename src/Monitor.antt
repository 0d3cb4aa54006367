-- ===== src/Monitor.antt =====
-- The progress monitor of pkg/workflow/supervisor.go, `DefaultProgressMonitor`. Each method holds the
-- monitor's lock.
pub mod Loads
mod Examples
use open_research_agent.Base.{
  suc, ◌+◌, ◌*◌, ◌/◌, List, [], ◌∷◌, Bool, ◌||◌, ℤ, pos, negsuc, pos_part, neg_part, ◌+ℤ◌, ◌-ℤ◌,
  ltb_ℤ, int64, some, none, Option, String, if◌then◌else◌, Instant,
}
use open_research_agent.Base.GoMap.{lookup, insert}
use open_research_agent.Domain.{
  TaskStatus, pending, in_progress, completed, failed, other_status, is_completed, is_failed,
}

pub record TaskProgress : Type 0 where
  pub task_id : String
  pub worker_id : String
  pub status : TaskStatus
  pub start_time : Instant
  pub end_time : Option Instant

pub record ProgressMonitor : Type 0 where
  pub tasks : List (String × TaskProgress)
  pub worker_loads : List (String × ℤ)  -- int

pub record ProgressReport : Type 0 where
  pub total_tasks : ℤ
  pub completed_tasks : ℤ
  pub in_progress_tasks : ℤ
  pub pending_tasks : ℤ
  pub failed_tasks : ℤ
  pub average_time : ℤ
  pub estimated_time : ℤ
  pub worker_loads : List (String × ℤ)

unfoldable pub new_progress_monitor : ProgressMonitor
new_progress_monitor = record { tasks = []; worker_loads = [] }

-- `m.workerLoads[id]`: a missing load reads as 0.
unfoldable pub load_of : List (String × ℤ) → String → ℤ
load_of loads worker = elim (lookup worker loads) [ none ↦ pos 0 | some load ↦ load ]

-- The entry that `TrackTask` makes.
abbrev pub newly_tracked : Instant → String → String → TaskProgress
newly_tracked now task_id worker = record {
  task_id = task_id;
  worker_id = worker;
  status = pending;
  start_time = now;
  end_time = none;
}

unfoldable pub track_task : Instant → String → String → ProgressMonitor → ProgressMonitor
unfolding load_of
track_task now task_id worker m = record {
  tasks = insert task_id (newly_tracked now task_id worker) m.tasks;
  worker_loads = insert worker (int64 (load_of m.worker_loads worker +ℤ pos 1)) m.worker_loads;
}

-- The status is one after which a task does no more work.
abbrev pub is_settled : TaskStatus → Bool
is_settled status = is_completed status || is_failed status

-- A load that is positive falls by one.
unfoldable pub drop_load : String → List (String × ℤ) → List (String × ℤ)
unfolding load_of
drop_load worker loads =
    if ltb_ℤ (pos 0) (load_of loads worker)
    then insert worker (int64 (load_of loads worker -ℤ pos 1)) loads
    else loads

unfoldable pub update_found :
    Instant → Option TaskProgress → String → TaskStatus → ProgressMonitor → ProgressMonitor
unfolding drop_load
update_found now none task_id status m = m
update_found now (some progress) task_id status m =
    if is_settled status
    then record {
      tasks = insert task_id (record progress { status = status; end_time = some now }) m.tasks;
      worker_loads = drop_load progress.worker_id m.worker_loads;
    }
    else record m { tasks = insert task_id (record progress { status = status }) m.tasks }

unfoldable pub update_task_status :
    Instant → String → TaskStatus → ProgressMonitor → ProgressMonitor
unfolding update_found
update_task_status now task_id status m = update_found now (lookup task_id m.tasks) task_id status m

unfoldable pub get_task_location : String → ProgressMonitor → Option String
get_task_location task_id m = elim (lookup task_id m.tasks) [
  | none ↦ none
  | some progress ↦ some progress.worker_id
]

-- The variables of the loop of `GetProgress`; durations add up as int64.
pub record Tally : Type 0 where
  pub report : ProgressReport
  pub total_time : ℤ
  pub completed_count : ℤ

abbrev inc : ℤ → ℤ
inc n = int64 (n +ℤ pos 1)

tally_time : TaskProgress → Option Instant → Tally → Tally
tally_time progress none t = t
tally_time progress (some end_time) t = record t {
  total_time = int64 (t.total_time +ℤ (pos end_time -ℤ pos progress.start_time));
  completed_count = inc t.completed_count;
}

tally_status : TaskStatus → TaskProgress → ProgressReport → Tally → Tally
unfolding tally_time
tally_status completed progress r t =
    tally_time progress progress.end_time
      (record t { report = record r { completed_tasks = inc r.completed_tasks } })
tally_status in_progress progress r t = record t {
  report = record r { in_progress_tasks = inc r.in_progress_tasks };
}
tally_status pending progress r t = record t {
  report = record r { pending_tasks = inc r.pending_tasks };
}
tally_status failed progress r t = record t {
  report = record r { failed_tasks = inc r.failed_tasks };
}
tally_status (other_status _) progress r t = record t { report = r }

unfoldable pub tally_tasks : List (String × TaskProgress) → Tally → Tally
unfolding tally_status
tally_tasks [] t = t
tally_tasks ((k, progress) ∷ tasks) t =
    let r = record t.report { total_tasks = inc t.report.total_tasks } in
    tally_tasks tasks (tally_status progress.status progress r t)

-- Go's division of signed integers, towards zero.
abbrev pub div_ℤ : ℤ → ℤ → ℤ
div_ℤ (pos a) (pos b) = pos (a / b)
div_ℤ (pos a) (negsuc b) = pos 0 -ℤ pos (a / suc b)
div_ℤ (negsuc a) (pos b) = pos 0 -ℤ pos (suc a / b)
div_ℤ (negsuc a) (negsuc b) = pos (suc a / suc b)

abbrev pub mul_ℤ : ℤ → ℤ → ℤ
mul_ℤ a b =
    (pos (pos_part a * pos_part b + neg_part a * neg_part b))
    -ℤ (pos (pos_part a * neg_part b + neg_part a * pos_part b))

unfoldable pub get_progress : ProgressMonitor → ProgressReport
unfolding tally_tasks
get_progress m =
    let zeros : ProgressReport = record {
      total_tasks = pos 0;
      completed_tasks = pos 0;
      in_progress_tasks = pos 0;
      pending_tasks = pos 0;
      failed_tasks = pos 0;
      average_time = pos 0;
      estimated_time = pos 0;
      worker_loads = [];
    } in
    let t =
      tally_tasks m.tasks
        (record { report = zeros; total_time = pos 0; completed_count = pos 0 }) in
    let average = div_ℤ t.total_time t.completed_count in
    let remaining = int64 (t.report.pending_tasks +ℤ t.report.in_progress_tasks) in
    if ltb_ℤ (pos 0) t.completed_count
    then record (t.report) {
      average_time = average;
      estimated_time = int64 (mul_ℤ average remaining);
      worker_loads = m.worker_loads;
    }
    else record (t.report) { worker_loads = m.worker_loads }
