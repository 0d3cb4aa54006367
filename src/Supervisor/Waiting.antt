-- ===== src/Supervisor/Waiting.antt =====
-- The pending tasks that rebalancing moves, in the supervisor's history and in its monitor.
use open_research_agent.Base.{
  ℕ, suc, ◌≡◌, refl, sym, ap, ◌∙◌, subst, inl, inr, List, [], ◌∷◌, Bool, true, false, ◌&&◌,
  Bool-cases, arith, some, none, All, Option, String, str_eq, eq_iff, if◌then◌else◌, any_of,
  Instant,
}
use open_research_agent.Base.GoMap.{lookup, lookup-insert}
use open_research_agent.Domain.{
  ResearchTask, TaskStatus, is_pending, pending, in_progress, completed, failed, other_status,
}
use open_research_agent.Monitor.{ProgressMonitor, track_task, update_task_status, newly_tracked}
use open_research_agent.Supervisor.Rebalance.{
  find_task_by_id, tasks_to_redistribute, and_list, move_known, worker_of, redistribute,
}
use open_research_agent.Supervisor.{Supervisor, TaskExecutionHistory}
use open_research_agent.Supervisor.History.{
  Agrees, of_history, of_history-insert, of_progress-insert, of_progress-update, tracked,
}

-- A task that the history knows is pending in it.
abbrev pub IsWaiting : List (String × TaskExecutionHistory) → String → Type 0
IsWaiting history task_id =
    (h : TaskExecutionHistory) → lookup task_id history ≡ some h → h.status ≡ pending

move_known-Agrees :
    (now : Instant) (task_id worker : String) (o : Option TaskExecutionHistory) (sv : Supervisor)
    → Agrees sv
    → lookup task_id sv.task_history ≡ o
    → IsWaiting sv.task_history task_id
    → Agrees (move_known now task_id worker o sv)
unfolding move_known track_task
move_known-Agrees now task_id worker none sv v e w = v
move_known-Agrees now task_id worker (some h) sv v e w =
    let (p, there, same) =
      tracked (lookup task_id sv.monitor.tasks) h.last_worker h.status
        (sym (ap of_history e) ∙ v task_id) in
    let monitor : ProgressMonitor = update_task_status now task_id pending sv.monitor in
    λ other. ground (
      arith,
      of_history-insert task_id other (record h { last_worker = worker }) sv.task_history,
      of_progress-insert task_id other (newly_tracked now task_id worker) monitor.tasks,
      of_progress-update now task_id other pending p sv.monitor there,
      v other,
      w h e,
    )

move_known-IsWaiting :
    (now : Instant) (task_id worker other : String) (o : Option TaskExecutionHistory)
    (sv : Supervisor)
    → lookup task_id sv.task_history ≡ o
    → IsWaiting sv.task_history task_id
    → IsWaiting sv.task_history other
    → IsWaiting (move_known now task_id worker o sv).task_history other
unfolding move_known
move_known-IsWaiting now task_id worker other none sv e w u = u
move_known-IsWaiting now task_id worker other (some h) sv e w u = λ g found.
    let moved : TaskExecutionHistory = record h { last_worker = worker } in
    let read : (if str_eq task_id other then some moved else lookup other sv.task_history)
        ≡ some g =
      sym (lookup-insert task_id other moved sv.task_history) ∙ found in
    elim (Bool-cases (str_eq task_id other)) [
      | inl b ↦
          let same : some moved ≡ some g =
            subst (λ c. (if c then some moved else lookup other sv.task_history) ≡ some g) b read in
          ground (arith, same, w h e)
      | inr b ↦
          u g
            (subst (λ c. (if c then some moved else lookup other sv.task_history) ≡ some g) b read)
    ]

find_task_by_id-named :
    (task_id : String) (queue : List ResearchTask) (task : ResearchTask)
    → find_task_by_id task_id queue ≡ some task
    → task.id ≡ task_id
unfolding find_task_by_id
find_task_by_id-named task_id [] task e = cc
find_task_by_id-named task_id (first ∷ queue) task e =
    ground (arith, eq_iff first.id task_id, find_task_by_id-named task_id queue task)

abbrev pub AllWaiting : List ResearchTask → List (String × TaskExecutionHistory) → Type 0
AllWaiting tasks history = All (λ (task : ResearchTask). IsWaiting history task.id) tasks

pub move_known-AllWaiting :
    (now : Instant) (task_id worker : String) (o : Option TaskExecutionHistory) (sv : Supervisor)
    (tasks : List ResearchTask)
    → lookup task_id sv.task_history ≡ o
    → IsWaiting sv.task_history task_id
    → AllWaiting tasks sv.task_history
    → AllWaiting tasks (move_known now task_id worker o sv).task_history
move_known-AllWaiting now task_id worker o sv [] e w a = tt
move_known-AllWaiting now task_id worker o sv (task ∷ tasks) e w a = (
  move_known-IsWaiting now task_id worker task.id o sv e w a.0,
  move_known-AllWaiting now task_id worker o sv tasks e w a.1,
)

pub redistribute-Agrees :
    (now : Instant) (workers : List String) (i : ℕ) (tasks : List ResearchTask) (sv : Supervisor)
    → AllWaiting tasks sv.task_history
    → Agrees sv
    → Agrees (redistribute now workers i tasks sv)
unfolding redistribute
redistribute-Agrees now workers i [] sv a v = v
redistribute-Agrees now workers i (task ∷ tasks) sv a v =
    let worker = worker_of workers i in
    let known = lookup task.id sv.task_history in
    redistribute-Agrees now workers (suc i) tasks (move_known now task.id worker known sv)
      (move_known-AllWaiting now task.id worker known sv tasks refl a.0 a.1)
      (move_known-Agrees now task.id worker known sv v refl a.0)

-- The entries that a loop over the history visits stand in it.
abbrev pub AllStand :
    List (String × TaskExecutionHistory) → List (String × TaskExecutionHistory) → Type 0
AllStand [] history = Unit
AllStand ((task_id, info) ∷ range) history =
    (lookup task_id history ≡ some info) × AllStand range history

pending_only : (status : TaskStatus) → is_pending status ≡ true → status ≡ pending
pending_only pending e = refl
pending_only in_progress e = cc
pending_only completed e = cc
pending_only failed e = cc
pending_only (other_status name) e = cc

stands-IsWaiting :
    (task_id : String) (info : TaskExecutionHistory)
    (history : List (String × TaskExecutionHistory))
    → lookup task_id history ≡ some info
    → is_pending info.status ≡ true
    → IsWaiting history task_id
stands-IsWaiting task_id info history e p = λ h found.
    let same : some info ≡ some h = sym e ∙ found in
    let waits : info.status ≡ pending = pending_only info.status p in ground (arith, same, waits)

and_list-AllWaiting :
    (task_id : String) (o : Option ResearchTask) (rest : List ResearchTask)
    (history : List (String × TaskExecutionHistory))
    → ((task : ResearchTask) → o ≡ some task → task.id ≡ task_id)
    → IsWaiting history task_id
    → AllWaiting rest history
    → AllWaiting (and_list o rest) history
and_list-AllWaiting task_id none rest history n w a = a
and_list-AllWaiting task_id (some task) rest history n w a =
    (subst (IsWaiting history) (sym (n task refl)) w, a)

if-AllWaiting :
    (a b : Bool) (taken other : List ResearchTask) (history : List (String × TaskExecutionHistory))
    → (a ≡ true → AllWaiting taken history)
    → AllWaiting other history
    → AllWaiting (if a && b then taken else other) history
if-AllWaiting true true taken other history h g = h refl
if-AllWaiting true false taken other history h g = g
if-AllWaiting false b taken other history h g = g

pub tasks_to_redistribute-AllWaiting :
    (workers : List String) (queue : List ResearchTask)
    (range history : List (String × TaskExecutionHistory))
    → AllStand range history
    → AllWaiting (tasks_to_redistribute workers queue range) history
unfolding tasks_to_redistribute
tasks_to_redistribute-AllWaiting workers queue [] history s = tt
tasks_to_redistribute-AllWaiting workers queue ((task_id, info) ∷ range) history s =
    let rest = tasks_to_redistribute-AllWaiting workers queue range history s.1 in
    if-AllWaiting (is_pending info.status)
      (any_of (λ worker. str_eq info.last_worker worker) workers) _ _ history
      (λ p.
        and_list-AllWaiting task_id (find_task_by_id task_id queue) _ history
          (λ task e. find_task_by_id-named task_id queue task e)
          (stands-IsWaiting task_id info history s.0 p) rest)
      rest
