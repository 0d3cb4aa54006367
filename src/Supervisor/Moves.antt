-- ===== src/Supervisor/Moves.antt =====
-- What rebalancing changes, and that it keeps the history and the monitor together.
use open_research_agent.Base.{◌≡◌, List, true, false, some, none, All, Option, String, ◌⊎◌}
use open_research_agent.Base.GoMap.{lookup}
use open_research_agent.Domain.{ResearchTask, pending}
use mathlib.Core.List.{Memᴰ}
use open_research_agent.Supervisor.Rebalance.{
  overloaded, underloaded, average_load, must_rebalance, tasks_to_redistribute, Ranges,
}
use open_research_agent.Supervisor.{Supervisor, TaskExecutionHistory}

-- One move leaves the histories of the other tasks as they are, and changes the worker of this one.
abbrev pub IsMovedBy :
    List String → Option TaskExecutionHistory → Option TaskExecutionHistory → Type 0
IsMovedBy workers before after =
    (after ≡ before)
    ⊎ ((h : TaskExecutionHistory) × (worker : String) × (before ≡ some h)
        × (h.status ≡ pending)
        × Memᴰ worker workers
        × (after ≡ some (record h { last_worker = worker })))

-- The task is with one of the workers, as far as the history knows it.
abbrev pub IsWith : List String → Option TaskExecutionHistory → Type 0
IsWith workers none = Unit
IsWith workers (some h) = Memᴰ h.last_worker workers

-- What `RebalanceTasks` makes of a supervisor: nothing when the loads are close or no worker is over or
-- under the average; else only tasks that were pending have a new worker, which is one under the
-- average, and so has each queued task of a worker over it that was pending.
abbrev pub Rebalances : Ranges → Supervisor → Supervisor → Type 0
Rebalances ranges sv after =
    let over = overloaded (average_load sv) ranges.loads_for_workers in
    let under = underloaded (average_load sv) ranges.loads_for_workers in
    ((must_rebalance ranges sv ≡ false) × (after ≡ sv))
    ⊎ ((must_rebalance ranges sv ≡ true)
        × ((task_id : String)
            → IsMovedBy under (lookup task_id sv.task_history) (lookup task_id after.task_history))
        × All (λ (task : ResearchTask). IsWith under (lookup task.id after.task_history))
            (tasks_to_redistribute over sv.task_queue ranges.history))
