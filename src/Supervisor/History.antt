-- ===== src/Supervisor/History.antt =====
-- The supervisor's record of a task against its monitor's.
use open_research_agent.Base.{
  ℕ, ◌≡◌, refl, sym, ap, ◌∙◌, inl, inr, List, [], ◌∷◌, ◌++◌, Bool, Bool-cases, arith, some, none,
  Option, String, str_eq, if◌then◌else◌,
}
use open_research_agent.Base.GoMap.{lookup, insert, lookup-insert}
use open_research_agent.Domain.{TaskStatus, pending, completed, failed}
use open_research_agent.Distribute.{TaskAssignment, assigned, no_workers, index_panic}
use open_research_agent.Monitor.{
  ProgressMonitor, TaskProgress, track_task, update_task_status, update_found, newly_tracked,
  is_settled,
}
use open_research_agent.Supervisor.{
  Supervisor, TaskExecutionHistory, Call, distributes, completes, new_supervisor, record_assignment,
  record_assignments, distribute_as, distribute_tasks, complete_known, handle_task_completion,
  new_history, step, run,
}

-- What both know of a task: its worker and its status.
abbrev pub of_history : Option TaskExecutionHistory → Option (String × TaskStatus)
of_history none = none
of_history (some h) = some (h.last_worker, h.status)

abbrev pub of_progress : Option TaskProgress → Option (String × TaskStatus)
of_progress none = none
of_progress (some p) = some (p.worker_id, p.status)

abbrev pub Agrees : Supervisor → Type 0
Agrees sv =
    (task_id : String)
    → of_history (lookup task_id sv.task_history) ≡ of_progress (lookup task_id sv.monitor.tasks)

pub of_history-insert :
    (k j : String) (v : TaskExecutionHistory) (m : List (String × TaskExecutionHistory))
    → of_history (lookup j (insert k v m))
      ≡ (if str_eq k j then some (v.last_worker, v.status) else of_history (lookup j m))
of_history-insert k j v m = ground (arith, lookup-insert k j v m)

pub of_progress-insert :
    (k j : String) (v : TaskProgress) (m : List (String × TaskProgress))
    → of_progress (lookup j (insert k v m))
      ≡ (if str_eq k j then some (v.worker_id, v.status) else of_progress (lookup j m))
of_progress-insert k j v m = ground (arith, lookup-insert k j v m)

-- A status that is reported for a tracked task, whatever the status.
pub of_progress-update :
    (now : ℕ) (k j : String) (status : TaskStatus) (p : TaskProgress) (m : ProgressMonitor)
    → lookup k m.tasks ≡ some p
    → of_progress (lookup j (update_task_status now k status m).tasks)
      ≡ (if str_eq k j then some (p.worker_id, status) else of_progress (lookup j m.tasks))
unfolding update_task_status update_found
of_progress-update now k j status p m h = elim (Bool-cases (is_settled status)) [
  | inl e ↦
      rw h
        (rw e (of_progress-insert k j (record p { status = status; end_time = some now }) m.tasks))
  | inr e ↦ rw h (rw e (of_progress-insert k j (record p { status = status }) m.tasks))
]

if-cong :
    (b : Bool) (x : Option (String × TaskStatus)) (y z : Option (String × TaskStatus))
    → y ≡ z
    → (if b then x else y) ≡ (if b then x else z)
if-cong b x y z h = ap (λ (o : Option (String × TaskStatus)). if b then x else o) h

record_assignment-Agrees :
    (now : ℕ) (a : TaskAssignment) (sv : Supervisor)
    → Agrees sv
    → Agrees (record_assignment now a sv)
unfolding record_assignment track_task
record_assignment-Agrees now a sv h task_id =
    of_history-insert a.task.id task_id (new_history now a) sv.task_history
    ∙ if-cong (str_eq a.task.id task_id) (some (a.worker_id, pending)) _ _ (h task_id)
    ∙ sym (
        of_progress-insert a.task.id task_id (newly_tracked now a.task.id a.worker_id)
          sv.monitor.tasks)

record_assignments-Agrees :
    (now : ℕ) (done : List TaskAssignment) (sv : Supervisor)
    → Agrees sv
    → Agrees (record_assignments now done sv)
unfolding record_assignments
record_assignments-Agrees now [] sv h = h
record_assignments-Agrees now (a ∷ rest) sv h =
    record_assignments-Agrees now rest (record_assignment now a sv)
      (record_assignment-Agrees now a sv h)

-- The monitor tracks a task of the history, for the same worker.
pub tracked :
    (o : Option TaskProgress) (worker : String) (status : TaskStatus)
    → some (worker, status) ≡ of_progress o
    → (p : TaskProgress) × (o ≡ some p) × (p.worker_id ≡ worker)
tracked none worker status h = cc
tracked (some p) worker status h = (p, refl, ground (arith, h))

-- A completed task: `h'` is its history afterwards.
settled-Agrees :
    (now : ℕ) (task_id other : String) (status : TaskStatus) (h h' : TaskExecutionHistory)
    (sv : Supervisor)
    → Agrees sv
    → lookup task_id sv.task_history ≡ some h
    → h'.last_worker ≡ h.last_worker
    → h'.status ≡ status
    → of_history (lookup other (insert task_id h' sv.task_history))
      ≡ of_progress (lookup other (update_task_status now task_id status sv.monitor).tasks)
settled-Agrees now task_id other status h h' sv v known worker after =
    let (p, there, same) =
      tracked (lookup task_id sv.monitor.tasks) h.last_worker h.status
        (sym (ap of_history known) ∙ v task_id) in
    of_history-insert task_id other h' sv.task_history
    ∙ ap
        (λ (x : String × TaskStatus).
          if str_eq task_id other then some x else of_history (lookup other sv.task_history))
        (ground (arith, worker, after, same))
    ∙ if-cong (str_eq task_id other) (some (p.worker_id, status)) _ _ (v other)
    ∙ sym (of_progress-update now task_id other status p sv.monitor there)

complete_known-Agrees :
    (now : ℕ) (task_id : String) (err : Option String) (o : Option TaskExecutionHistory)
    (sv : Supervisor)
    → Agrees sv
    → lookup task_id sv.task_history ≡ o
    → Agrees (complete_known now task_id err o sv)
unfolding complete_known
complete_known-Agrees now task_id err none sv v e = v
complete_known-Agrees now task_id (some err) (some h) sv v e =
    λ other. settled-Agrees now task_id other failed h _ sv v e refl refl
complete_known-Agrees now task_id none (some h) sv v e =
    λ other. settled-Agrees now task_id other completed h _ sv v e refl refl

step-Agrees : (c : Call) (sv : Supervisor) → Agrees sv → Agrees (step c sv)
unfolding step distribute_tasks distribute_as handle_task_completion
step-Agrees (distributes now tasks (assigned done)) sv v =
    record_assignments-Agrees now done (record sv { task_queue = sv.task_queue ++ tasks }) v
step-Agrees (distributes now tasks no_workers) sv v = v
step-Agrees (distributes now tasks index_panic) sv v = v
step-Agrees (completes now task_id err) sv v =
    complete_known-Agrees now task_id err (lookup task_id sv.task_history) sv v refl

-- After any history of distributions and completion events, the supervisor's history and its progress
-- monitor know the same tasks, with the same worker and the same status.
pub run-Agrees : (cs : List Call) (sv : Supervisor) → Agrees sv → Agrees (run cs sv)
unfolding run
run-Agrees [] sv v = v
run-Agrees (c ∷ cs) sv v = run-Agrees cs (step c sv) (step-Agrees c sv v)

pub new_supervisor-Agrees : Agrees new_supervisor
unfolding new_supervisor lookup
new_supervisor-Agrees task_id = refl
