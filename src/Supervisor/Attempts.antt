-- ===== src/Supervisor/Attempts.antt =====
-- How often the supervisor counts an attempt at a task.
use open_research_agent.Base.{
  ℕ, ◌^◌, ◌≤◌, ◌<◌, ◌≡◌, refl, inl, inr, List, [], ◌∷◌, ◌++◌, Bool-cases, pos, pos_part, neg_part,
  int64, arith, some, none, All, Option, String, str_eq,
}
use open_research_agent.Base.GoMap.{lookup, insert}
use open_research_agent.Distribute.{TaskAssignment, assigned, no_workers, index_panic}
use open_research_agent.Supervisor.{
  Supervisor, TaskExecutionHistory, Call, distributes, completes, record_assignment,
  record_assignments, distribute_as, distribute_tasks, complete_known, handle_task_completion,
  new_history, after_failure, step, run,
}

-- Attempts from 0 to a number of retries.
abbrev pub IsTried : ℕ → String × TaskExecutionHistory → Type 0
IsTried retries (k, h) = (neg_part h.attempts ≡ 0) × (pos_part h.attempts ≤ retries)

pub record IsWithinRetries (retries : ℕ) (sv : Supervisor) : Type 0 where
  pub limit : sv.max_retries ≡ pos retries
  pub tried : All (IsTried retries) sv.task_history

All-insert :
    (retries : ℕ) (k : String) (h : TaskExecutionHistory) (m : List (String × TaskExecutionHistory))
    → IsTried retries (k, h)
    → All (IsTried retries) m
    → All (IsTried retries) (insert k h m)
unfolding insert
All-insert retries k h [] new a = (new, tt)
All-insert retries k h ((j, other) ∷ m) new a = elim (Bool-cases (str_eq j k)) [
  | inl e ↦ rw e (new, a.1)
  | inr e ↦ rw e (a.0, All-insert retries k h m new a.1)
]

lookup-IsTried :
    (retries : ℕ) (k : String) (h : TaskExecutionHistory) (m : List (String × TaskExecutionHistory))
    → All (IsTried retries) m
    → lookup k m ≡ some h
    → IsTried retries (k, h)
unfolding lookup
lookup-IsTried retries k h [] a e = cc
lookup-IsTried retries k h ((j, other) ∷ m) a e = ground (arith, lookup-IsTried retries k h m a.1)

record_assignments-IsWithinRetries :
    (retries now : ℕ) (done : List TaskAssignment) (sv : Supervisor)
    → IsWithinRetries retries sv
    → IsWithinRetries retries (record_assignments now done sv)
unfolding record_assignments record_assignment
record_assignments-IsWithinRetries retries now [] sv v = v
record_assignments-IsWithinRetries retries now (a ∷ rest) sv v =
    record_assignments-IsWithinRetries retries now rest (record_assignment now a sv) (record {
      limit = v.limit;
      tried =
          All-insert retries a.task.id (new_history now a) sv.task_history (refl, omega arith)
            v.tried;
    })

after_failure-IsTried :
    (retries now : ℕ) (k err : String) (h : TaskExecutionHistory)
    → retries < 2 ^ 63
    → IsTried retries (k, h)
    → IsTried retries (k, after_failure now err (pos retries) h)
unfolding int64
after_failure-IsTried retries now k err h small t = ground arith

complete_known-IsWithinRetries :
    (retries now : ℕ) (k : String) (err : Option String) (o : Option TaskExecutionHistory)
    (sv : Supervisor)
    → retries < 2 ^ 63
    → IsWithinRetries retries sv
    → lookup k sv.task_history ≡ o
    → IsWithinRetries retries (complete_known now k err o sv)
unfolding complete_known
complete_known-IsWithinRetries retries now k err none sv small v e = v
complete_known-IsWithinRetries retries now k (some err) (some h) sv small v e = record {
  limit = v.limit;
  tried =
      All-insert retries k (after_failure now err sv.max_retries h) sv.task_history
        (rw v.limit (
          after_failure-IsTried retries now k err h small
            (lookup-IsTried retries k h sv.task_history v.tried e)))
        v.tried;
}
complete_known-IsWithinRetries retries now k none (some h) sv small v e = record {
  limit = v.limit;
  tried =
      All-insert retries k _ sv.task_history (lookup-IsTried retries k h sv.task_history v.tried e)
        v.tried;
}

step-IsWithinRetries :
    (retries : ℕ) (c : Call) (sv : Supervisor)
    → retries < 2 ^ 63
    → IsWithinRetries retries sv
    → IsWithinRetries retries (step c sv)
unfolding step distribute_tasks distribute_as handle_task_completion
step-IsWithinRetries retries (distributes now tasks (assigned done)) sv small v =
    record_assignments-IsWithinRetries retries now done
      (record sv { task_queue = sv.task_queue ++ tasks })
      (record { limit = v.limit; tried = v.tried })
step-IsWithinRetries retries (distributes now tasks no_workers) sv small v = record {
  limit = v.limit;
  tried = v.tried;
}
step-IsWithinRetries retries (distributes now tasks index_panic) sv small v = record {
  limit = v.limit;
  tried = v.tried;
}
step-IsWithinRetries retries (completes now k err) sv small v =
    complete_known-IsWithinRetries retries now k err (lookup k sv.task_history) sv small v refl

-- However many failures are reported, no task has more attempts to its name than the retries that the
-- supervisor allows.
pub run-IsWithinRetries :
    (retries : ℕ) (cs : List Call) (sv : Supervisor)
    → retries < 2 ^ 63
    → IsWithinRetries retries sv
    → IsWithinRetries retries (run cs sv)
unfolding run
run-IsWithinRetries retries [] sv small v = v
run-IsWithinRetries retries (c ∷ cs) sv small v =
    run-IsWithinRetries retries cs (step c sv) small (step-IsWithinRetries retries c sv small v)
