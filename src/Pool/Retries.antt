-- ===== src/Pool/Retries.antt =====
-- What becomes of a task that fails, and of a pool that is stopped.
use open_research_agent.Base.{
  ℕ, zero, suc, ◌≡◌, refl, subst, List, [], ◌∷◌, true, pos, arith, some, none, All, Option,
  All-append,
}
use open_research_agent.Domain.{ResearchTask}
use open_research_agent.Pool.{
  not_launching, counting, launching, Launch, start_from, count_queued, count_depth,
  give_depth_back, counts_queued, counts_depth, gives_depth_back, WorkerPool, WorkerPoolConfig,
  WorkerTask, TaskOutcome, processed, processing_failed, Outcome, moved, refused, panicked, take_at,
  push_front, starts, stops, closes_results, receives, exits, submits, sends, gives_up,
  leaves_queue, begins, reports, finishes, resubmits, start, stop, close_results, receive,
  exit_worker, submit, send, give_up, leave_queue, begin, report, report_result, report_failure,
  finish, resubmit, Action, advance, Reach, at_first, then_by, empty_pool, with_defaults,
}
use open_research_agent.Pool.Counts.{Leads}

abbrev pub AllTaken {ℓ κ} : {A : Type ℓ} → (A → Type κ) → Option (A × List A) → Type κ
AllTaken P none = Unit
AllTaken P (some (x, others)) = P x × All P others

push_front-AllTaken {ℓ κ} :
    {A : Type ℓ} (P : A → Type κ) (x : A) (o : Option (A × List A))
    → P x
    → AllTaken P o
    → AllTaken P (push_front x o)
push_front-AllTaken P x none h k = tt
push_front-AllTaken P x (some (y, others)) h k = (k.0, (h, k.1))

take_at-AllTaken {ℓ κ} :
    {A : Type ℓ} (P : A → Type κ) (i : ℕ) (xs : List A) → All P xs → AllTaken P (take_at i xs)
take_at-AllTaken P i [] h = tt
take_at-AllTaken P zero (x ∷ xs) h = h
take_at-AllTaken P (suc i) (x ∷ xs) h =
    push_front-AllTaken P x (take_at i xs) h.0 (take_at-AllTaken P i xs h.1)

abbrev pub IsFresh : WorkerTask → Type 0
IsFresh t = t.retries ≡ pos 0

abbrev pub IsFreshEntry : WorkerTask × TaskOutcome → Type 0
IsFreshEntry e = e.0.retries ≡ pos 0

-- No task that is submitted has a retry to its name, and nobody was told of a failure.
pub record IsUntold (p : WorkerPool) : Type 0 where
  pub in_admitted : All IsFresh p.admitted
  pub in_counted : All IsFresh p.counted
  pub in_submit : All IsFresh p.submitting
  pub in_queue : All IsFresh p.task_queue
  pub in_received : All IsFresh p.received
  pub in_starting : All IsFresh p.starting
  pub in_working : All IsFresh p.working
  pub in_finishing : All IsFreshEntry p.finishing
  pub no_errors : p.error_ch ≡ []

submit-IsUntold :
    (now : ℕ) (task : ResearchTask) (p : WorkerPool)
    → IsUntold p
    → Leads IsUntold (submit now task p)
unfolding submit
submit-IsUntold now task p u = ground arith

count_queued-IsUntold :
    (o : Option (WorkerTask × List WorkerTask)) (p : WorkerPool)
    → IsUntold p
    → AllTaken IsFresh o
    → Leads IsUntold (count_queued o p)
unfolding count_queued
count_queued-IsUntold none p u h = tt
count_queued-IsUntold (some (task, others)) p u h = ground arith

count_depth-IsUntold :
    (o : Option (WorkerTask × List WorkerTask)) (p : WorkerPool)
    → IsUntold p
    → AllTaken IsFresh o
    → Leads IsUntold (count_depth o p)
unfolding count_depth
count_depth-IsUntold none p u h = tt
count_depth-IsUntold (some (task, others)) p u h = ground arith

give_depth_back-IsUntold :
    (o : Option (WorkerTask × List WorkerTask)) (p : WorkerPool)
    → IsUntold p
    → Leads IsUntold (give_depth_back o p)
unfolding give_depth_back
give_depth_back-IsUntold none p u = tt
give_depth_back-IsUntold (some (task, others)) p u = ground arith

start_from-IsUntold : (l : Launch) (p : WorkerPool) → IsUntold p → Leads IsUntold (start_from l p)
unfolding start_from
start_from-IsUntold not_launching p u = ground arith
start_from-IsUntold (launching (suc left)) p u = ground arith
start_from-IsUntold (counting left) p u = ground arith
start_from-IsUntold (launching zero) p u = ground arith

send-IsUntold :
    (o : Option (WorkerTask × List WorkerTask)) (p : WorkerPool)
    → IsUntold p
    → AllTaken IsFresh o
    → Leads IsUntold (send o p)
unfolding send
send-IsUntold none p u h = tt
send-IsUntold (some (task, others)) p u h =
    let queue = All-append IsFresh p.task_queue (task ∷ []) (u.in_queue, (h.0, tt)) in ground arith

give_up-IsUntold :
    (o : Option (WorkerTask × List WorkerTask)) (p : WorkerPool)
    → IsUntold p
    → AllTaken IsFresh o
    → Leads IsUntold (give_up o p)
unfolding give_up
give_up-IsUntold none p u h = tt
give_up-IsUntold (some (task, others)) p u h = ground arith

receive-IsUntold :
    (q : List WorkerTask) (p : WorkerPool)
    → IsUntold p
    → All IsFresh q
    → Leads IsUntold (receive q p)
unfolding receive
receive-IsUntold [] p u h = tt
receive-IsUntold (task ∷ q) p u h = ground arith

leave_queue-IsUntold :
    (o : Option (WorkerTask × List WorkerTask)) (p : WorkerPool)
    → IsUntold p
    → AllTaken IsFresh o
    → Leads IsUntold (leave_queue o p)
unfolding leave_queue
leave_queue-IsUntold none p u h = tt
leave_queue-IsUntold (some (task, others)) p u h = ground arith

begin-IsUntold :
    (o : Option (WorkerTask × List WorkerTask)) (p : WorkerPool)
    → IsUntold p
    → AllTaken IsFresh o
    → Leads IsUntold (begin o p)
unfolding begin
begin-IsUntold none p u h = tt
begin-IsUntold (some (task, others)) p u h = ground arith

finish-IsUntold :
    (now : ℕ) (outcome : TaskOutcome) (o : Option (WorkerTask × List WorkerTask)) (p : WorkerPool)
    → IsUntold p
    → AllTaken IsFresh o
    → Leads IsUntold (finish now outcome o p)
unfolding finish
finish-IsUntold now outcome none p u h = tt
finish-IsUntold now outcome (some (task, others)) p u h = ground arith

report-IsUntold :
    (o : Option ((WorkerTask × TaskOutcome) × List (WorkerTask × TaskOutcome))) (p : WorkerPool)
    → IsUntold p
    → AllTaken IsFreshEntry o
    → Leads IsUntold (report o p)
unfolding report report_result report_failure
report-IsUntold none p u h = tt
report-IsUntold (some ((task, processed result), others)) p u h = ground arith
report-IsUntold (some ((task, processing_failed cause), others)) p u h = ground arith

resubmit-IsUntold :
    (now : ℕ) (o : Option (WorkerTask × List WorkerTask)) (p : WorkerPool)
    → IsUntold p
    → Leads IsUntold (resubmit now o p)
unfolding resubmit submit
resubmit-IsUntold now none p u = tt
resubmit-IsUntold now (some (task, others)) p u = ground arith

pub advance-IsUntold : (a : Action) (p : WorkerPool) → IsUntold p → Leads IsUntold (advance a p)
unfolding advance
advance-IsUntold starts p u = unfold start in start_from-IsUntold p.launch p u
advance-IsUntold stops p u = unfold stop in ground arith
advance-IsUntold closes_results p u = unfold close_results in ground arith
advance-IsUntold receives p u = receive-IsUntold p.task_queue p u u.in_queue
advance-IsUntold exits p u = unfold exit_worker in ground arith
advance-IsUntold (submits now task) p u = submit-IsUntold now task p u
advance-IsUntold (counts_queued i) p u =
    count_queued-IsUntold (take_at i p.admitted) p u
      (take_at-AllTaken IsFresh i p.admitted u.in_admitted)
advance-IsUntold (counts_depth i) p u =
    count_depth-IsUntold (take_at i p.counted) p u
      (take_at-AllTaken IsFresh i p.counted u.in_counted)
advance-IsUntold (gives_depth_back i) p u = give_depth_back-IsUntold (take_at i p.leaving) p u
advance-IsUntold (sends i) p u =
    send-IsUntold (take_at i p.submitting) p u (take_at-AllTaken IsFresh i p.submitting u.in_submit)
advance-IsUntold (gives_up i) p u =
    give_up-IsUntold (take_at i p.submitting) p u
      (take_at-AllTaken IsFresh i p.submitting u.in_submit)
advance-IsUntold (leaves_queue i) p u =
    leave_queue-IsUntold (take_at i p.received) p u
      (take_at-AllTaken IsFresh i p.received u.in_received)
advance-IsUntold (begins i) p u =
    begin-IsUntold (take_at i p.starting) p u (take_at-AllTaken IsFresh i p.starting u.in_starting)
advance-IsUntold (reports i) p u =
    report-IsUntold (take_at i p.finishing) p u
      (take_at-AllTaken IsFreshEntry i p.finishing u.in_finishing)
advance-IsUntold (finishes now outcome i) p u =
    finish-IsUntold now outcome (take_at i p.working) p u
      (take_at-AllTaken IsFresh i p.working u.in_working)
advance-IsUntold (resubmits now i) p u = resubmit-IsUntold now (take_at i p.retrying) p u

Reach-IsUntold :
    {room : WorkerPool → Type 0} {p q : WorkerPool} → Reach room p q → IsUntold p → IsUntold q
Reach-IsUntold at_first u = u
Reach-IsUntold (then_by {p = before} a r room_left e) u =
    subst (Leads IsUntold) e (advance-IsUntold a before (Reach-IsUntold r u))

-- However often its tasks fail, a pool never writes to the error channel: a retry is a new
-- submission, whose count of retries starts again at 0, so that no task uses up its three retries.
pub errors_never_sent :
    (cfg : WorkerPoolConfig) (room : WorkerPool → Type 0) (q : WorkerPool)
    → Reach room (empty_pool (with_defaults cfg)) q
    → (q.error_ch ≡ []) × All IsFresh q.working
errors_never_sent cfg room q r =
    let u = Reach-IsUntold r start_untold in (u.no_errors, u.in_working)
  where
    start_untold : IsUntold (empty_pool (with_defaults cfg))
    start_untold = record {
      in_admitted = tt;
      in_counted = tt;
      in_submit = tt;
      in_queue = tt;
      in_received = tt;
      in_starting = tt;
      in_working = tt;
      in_finishing = tt;
      no_errors = refl;
    }

-- The actions one after another, until one is refused or panics.
abbrev pub and_then : Outcome → Action → Outcome
and_then (moved p) a = advance a p
and_then refused a = refused
and_then panicked a = panicked

abbrev pub perform : List Action → Outcome → Outcome
perform [] o = o
perform (a ∷ actions) o = perform actions (and_then o a)

-- A task that is being submitted as the pool stops is sent on the closed queue, which panics.
pub late_submission_panics :
    (now : ℕ) (task : ResearchTask) (p : WorkerPool)
    → p.running ≡ true
    → perform (submits now task ∷ counts_queued 0 ∷ counts_depth 0 ∷ stops ∷ sends 0 ∷ []) (moved p)
      ≡ panicked
unfolding advance stop submit count_queued count_depth send
late_submission_panics now task p h = ground arith
