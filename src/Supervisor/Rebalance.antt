-- ===== src/Supervisor/Rebalance.antt =====
-- `RebalanceTasks` and `AdaptStrategy` of pkg/workflow/supervisor.go. The orders in which the loops
-- visit the loads and the history are arguments.
use open_research_agent.Base.{
  Bool, ℕ, suc, ◌*◌, ◌%◌, List, [], ◌∷◌, ◌&&◌, ◌||◌, ℤ, pos, ◌+ℤ◌, ◌-ℤ◌, ltb_ℤ, eqb_ℤ, int64, some,
  none, Option, String, str_eq, float_0_2, float_0_5, if◌then◌else◌, ltb, length, get_elem?, any_of,
  FloatOps, Instant,
}
use open_research_agent.Base.GoMap.{lookup, insert}
use open_research_agent.Domain.{ResearchTask, is_pending, pending}
use open_research_agent.Monitor.{track_task, update_task_status, get_progress, div_ℤ}
use open_research_agent.Supervisor.{Supervisor, TaskExecutionHistory}

-- The loop for the highest and the lowest load: both start at 0, and a lowest load of 0 gives way to
-- the next load.
unfoldable pub scan_loads : List (String × ℤ) → ℤ × ℤ → ℤ × ℤ
scan_loads [] extremes = extremes
scan_loads ((id, load) ∷ loads) (max_load, min_load) = scan_loads loads (
  (if ltb_ℤ max_load load then load else max_load),
  (if eqb_ℤ min_load (pos 0) || ltb_ℤ load min_load then load else min_load),
)

-- The overloaded workers and the underloaded ones.
unfoldable pub overloaded : ℤ → List (String × ℤ) → List String
overloaded average [] = []
overloaded average ((id, load) ∷ loads) =
    let rest = overloaded average loads in
    if ltb_ℤ (int64 (average +ℤ pos 1)) load then id ∷ rest else rest

unfoldable pub underloaded : ℤ → List (String × ℤ) → List String
underloaded average [] = []
underloaded average ((id, load) ∷ loads) =
    let rest = underloaded average loads in
    if ltb_ℤ (int64 (average +ℤ pos 1)) load
    then rest
    else if ltb_ℤ load average
    then id ∷ rest
    else rest

unfoldable pub find_task_by_id : String → List ResearchTask → Option ResearchTask
find_task_by_id task_id [] = none
find_task_by_id task_id (task ∷ queue) =
    let rest = find_task_by_id task_id queue in if str_eq task.id task_id then some task else rest

abbrev pub and_list : Option ResearchTask → List ResearchTask → List ResearchTask
and_list none tasks = tasks
and_list (some task) tasks = task ∷ tasks

-- The pending tasks of overloaded workers, as far as they stand in the queue.
unfoldable pub tasks_to_redistribute :
    List String → List ResearchTask → List (String × TaskExecutionHistory) → List ResearchTask
unfolding find_task_by_id
tasks_to_redistribute workers queue [] = []
tasks_to_redistribute workers queue ((task_id, info) ∷ range) =
    let rest = tasks_to_redistribute workers queue range in
    if is_pending info.status && any_of (λ worker. str_eq info.last_worker worker) workers
    then and_list (find_task_by_id task_id queue) rest
    else rest

unfoldable pub move_known :
    Instant → String → String → Option TaskExecutionHistory → Supervisor → Supervisor
move_known now task_id worker none sv = sv
move_known now task_id worker (some h) sv = record sv {
  task_history = insert task_id (record h { last_worker = worker }) sv.task_history;
  monitor = track_task now task_id worker (update_task_status now task_id pending sv.monitor);
}

-- The worker that the task of index `i` goes to; the list is not empty here.
abbrev pub worker_of : List String → ℕ → String
worker_of workers i = elim (get_elem? workers (i % length workers)) [ none ↦ "" | some w ↦ w ]

unfoldable pub redistribute :
    Instant → List String → ℕ → List ResearchTask → Supervisor → Supervisor
unfolding move_known
redistribute now workers i [] sv = sv
redistribute now workers i (task ∷ tasks) sv =
    redistribute now workers (suc i) tasks
      (move_known now task.id (worker_of workers i) (lookup task.id sv.task_history) sv)

-- The orders of the three loops over maps.
pub record Ranges : Type 0 where
  pub loads_for_extremes : List (String × ℤ)
  pub loads_for_workers : List (String × ℤ)
  pub history : List (String × TaskExecutionHistory)

-- The average load.
abbrev pub average_load : Supervisor → ℤ
average_load sv =
    let progress = get_progress sv.monitor in
    div_ℤ progress.total_tasks (pos (length progress.worker_loads))

-- The loads differ by more than 3, and some worker is over the average and some under it.
abbrev pub must_rebalance : Ranges → Supervisor → Bool
must_rebalance ranges sv =
    let (max_load, min_load) = scan_loads ranges.loads_for_extremes (pos 0, pos 0) in
    ltb_ℤ (pos 3) (int64 (max_load -ℤ min_load))
    && (ltb 0 (length (overloaded (average_load sv) ranges.loads_for_workers))
        && ltb 0 (length (underloaded (average_load sv) ranges.loads_for_workers)))

-- `RebalanceTasks`, which is always enabled.
unfoldable pub rebalance_tasks : Instant → Ranges → Supervisor → Supervisor
unfolding scan_loads overloaded underloaded tasks_to_redistribute redistribute
rebalance_tasks now ranges sv =
    let over = overloaded (average_load sv) ranges.loads_for_workers in
    let under = underloaded (average_load sv) ranges.loads_for_workers in
    let moved =
      redistribute now under 0 (tasks_to_redistribute over sv.task_queue ranges.history) sv in
    if must_rebalance ranges sv then moved else sv

-- The distributor that `AdaptStrategy` switches to, if it does.
pub data Switch : Type 0 where
  to_round_robin to_cost_based no_switch : Switch

unfoldable pub adapt_strategy : FloatOps → ℕ → Supervisor → Switch
adapt_strategy float workers sv =
    let progress = get_progress sv.monitor in
    let total = float.of_int progress.total_tasks in
    let completion_rate = float.div (float.of_int progress.completed_tasks) total in
    let failure_rate = float.div (float.of_int progress.failed_tasks) total in
    if float.lt float_0_2 failure_rate
    then to_round_robin
    else if float.lt completion_rate float_0_5
        && ltb_ℤ (pos (workers * 2)) progress.in_progress_tasks
    then to_cost_based
    else no_switch
