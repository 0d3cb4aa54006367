-- ===== src/Pool/Counts.antt =====
-- The counters of the pool against the tasks themselves, in every interleaving.
use open_research_agent.Base.{
  ℕ, zero, suc, ◌+◌, ◌-◌, ◌^◌, ◌≤◌, ◌<◌, ◌≡◌, refl, ap, subst, ◌↔◌, List, [], ◌∷◌, true, pos,
  pos_part, neg_part, int64, int32, arith, some, none, Option, length, length-append,
}
use open_research_agent.Domain.{ResearchTask}
use open_research_agent.Pool.{
  not_launching, counting, launching, gives_depth_back, counts_depth, Launch, counts_queued,
  give_depth_back, count_depth, count_queued, start_from, WorkerPool, WorkerPoolConfig, WorkerTask,
  TaskOutcome, processed, processing_failed, Outcome, moved, refused, panicked, take_at, push_front,
  busy, starts, stops, closes_results, receives, exits, submits, sends, gives_up, leaves_queue,
  begins, reports, finishes, resubmits, start, stop, close_results, receive, exit_worker, submit,
  send, give_up, leave_queue, begin, report, report_result, report_failure, finish, resubmit,
  Action, advance, Reach, at_first, then_by, is_quiet, empty_pool, with_defaults,
}

abbrev pub Taken {ℓ} : {A : Type ℓ} → List A → Option (A × List A) → Type 0
Taken xs none = Unit
Taken xs (some (x, others)) = length xs ≡ suc (length others)

push_front-Taken {ℓ} :
    {A : Type ℓ} (x : A) (xs : List A) (o : Option (A × List A))
    → Taken xs o
    → Taken (x ∷ xs) (push_front x o)
push_front-Taken x xs none h = tt
push_front-Taken x xs (some (y, others)) h = ap suc h

take_at-Taken {ℓ} : {A : Type ℓ} (i : ℕ) (xs : List A) → Taken xs (take_at i xs)
take_at-Taken i [] = tt
take_at-Taken zero (x ∷ xs) = refl
take_at-Taken (suc i) (x ∷ xs) = push_front-Taken x xs (take_at i xs) (take_at-Taken i xs)

-- The tasks that queueDepth counts, and all that are submitted and not finished.
abbrev pub queued : WorkerPool → ℕ
queued p = length p.submitting + length p.task_queue + length p.received + length p.leaving

abbrev pub unfinished : WorkerPool → ℕ
unfinished p = length p.counted + length p.submitting + length p.task_queue + busy p

-- Each counter is what it is meant to count, the queue fits its channel, and every submission is
-- unfinished, completed or failed.
pub record Counted (p : WorkerPool) : Type 0 where
  pub depth : p.metrics.queue_depth ≡ pos (queued p)
  pub processing : p.metrics.tasks_processing ≡ pos (length p.working)
  pub completed_pos : neg_part p.metrics.tasks_completed ≡ 0
  pub failed_pos : neg_part p.metrics.tasks_failed ≡ 0
  pub conserved :
      p.metrics.tasks_queued
      ≡ pos (unfinished p + pos_part p.metrics.tasks_completed + pos_part p.metrics.tasks_failed)
  pub config_pos : (neg_part p.config.queue_size ≡ 0) × (0 < pos_part p.config.queue_size)
  pub queue_fits : length p.task_queue ≤ pos_part p.config.queue_size

-- What holds where an action leads.
abbrev pub Leads {κ} : (WorkerPool → Type κ) → Outcome → Type κ
Leads P (moved q) = P q
Leads P refused = Unit
Leads P panicked = Unit

-- The two counters of `Submit` can be raised once more.
pub record HasRoom (p : WorkerPool) : Type 0 where
  pub submissions : pos_part p.metrics.tasks_queued < 2 ^ 63 - 1
  pub depth : pos_part p.metrics.queue_depth < 2 ^ 31 - 1

start_from-Counted : (l : Launch) (p : WorkerPool) → Counted p → Leads Counted (start_from l p)
unfolding start_from
start_from-Counted not_launching p c = ground arith
start_from-Counted (launching (suc left)) p c = ground arith
start_from-Counted (counting left) p c = ground arith
start_from-Counted (launching zero) p c = ground arith

submit-Counted :
    (now : ℕ) (task : ResearchTask) (p : WorkerPool) → Counted p → Leads Counted (submit now task p)
unfolding submit
submit-Counted now task p c = ground arith

count_queued-Counted :
    (o : Option (WorkerTask × List WorkerTask)) (p : WorkerPool)
    → Counted p
    → HasRoom p
    → Leads Counted (count_queued o p)
unfolding count_queued int64
count_queued-Counted none p c room = tt
count_queued-Counted (some (task, others)) p c room = ground arith

count_depth-Counted :
    (o : Option (WorkerTask × List WorkerTask)) (p : WorkerPool)
    → Counted p
    → HasRoom p
    → Taken p.counted o
    → Leads Counted (count_depth o p)
unfolding count_depth int32
count_depth-Counted none p c room h = tt
count_depth-Counted (some (task, others)) p c room h = ground arith

send-Counted :
    (o : Option (WorkerTask × List WorkerTask)) (p : WorkerPool)
    → Counted p
    → Taken p.submitting o
    → Leads Counted (send o p)
unfolding send
send-Counted none p c h = tt
send-Counted (some (task, others)) p c h = ground (arith, length-append p.task_queue (task ∷ []))

give_up-Counted :
    (o : Option (WorkerTask × List WorkerTask)) (p : WorkerPool)
    → Counted p
    → HasRoom p
    → Taken p.submitting o
    → Leads Counted (give_up o p)
unfolding give_up int64
give_up-Counted none p c room h = tt
give_up-Counted (some (task, others)) p c room h = ground arith

give_depth_back-Counted :
    (o : Option (WorkerTask × List WorkerTask)) (p : WorkerPool)
    → Counted p
    → HasRoom p
    → Taken p.leaving o
    → Leads Counted (give_depth_back o p)
unfolding give_depth_back int32
give_depth_back-Counted none p c room h = tt
give_depth_back-Counted (some (task, others)) p c room h = ground arith

receive-Counted :
    (q : List WorkerTask) (p : WorkerPool)
    → Counted p
    → p.task_queue ≡ q
    → Leads Counted (receive q p)
unfolding receive
receive-Counted [] p c h = tt
receive-Counted (task ∷ q) p c h = ground (arith, ap (λ (ts : List WorkerTask). length ts) h)

leave_queue-Counted :
    (o : Option (WorkerTask × List WorkerTask)) (p : WorkerPool)
    → Counted p
    → HasRoom p
    → Taken p.received o
    → Leads Counted (leave_queue o p)
unfolding leave_queue int32
leave_queue-Counted none p c room h = tt
leave_queue-Counted (some (task, others)) p c room h = ground arith

begin-Counted :
    (o : Option (WorkerTask × List WorkerTask)) (p : WorkerPool)
    → Counted p
    → HasRoom p
    → Taken p.starting o
    → Leads Counted (begin o p)
unfolding begin int64
begin-Counted none p c room h = tt
begin-Counted (some (task, others)) p c room h = ground arith

finish-Counted :
    (now : ℕ) (outcome : TaskOutcome) (o : Option (WorkerTask × List WorkerTask)) (p : WorkerPool)
    → Counted p
    → HasRoom p
    → Taken p.working o
    → Leads Counted (finish now outcome o p)
unfolding finish int64
finish-Counted now outcome none p c room h = tt
finish-Counted now outcome (some (task, others)) p c room h = ground arith

report-Counted :
    (o : Option ((WorkerTask × TaskOutcome) × List (WorkerTask × TaskOutcome))) (p : WorkerPool)
    → Counted p
    → HasRoom p
    → Taken p.finishing o
    → Leads Counted (report o p)
unfolding report report_result report_failure int64
report-Counted none p c room h = tt
report-Counted (some ((task, processed result), others)) p c room h = ground arith
report-Counted (some ((task, processing_failed cause), others)) p c room h = ground arith

resubmit-Counted :
    (now : ℕ) (o : Option (WorkerTask × List WorkerTask)) (p : WorkerPool)
    → Counted p
    → Leads Counted (resubmit now o p)
unfolding resubmit submit
resubmit-Counted now none p c = tt
resubmit-Counted now (some (task, others)) p c = ground arith

exit_worker-Counted : (p : WorkerPool) → Counted p → Leads Counted (exit_worker p)
unfolding exit_worker
exit_worker-Counted p c = ground arith

pub advance-Counted :
    (a : Action) (p : WorkerPool) → Counted p → HasRoom p → Leads Counted (advance a p)
unfolding advance
advance-Counted starts p c room = unfold start in start_from-Counted p.launch p c
advance-Counted stops p c room = unfold stop in ground arith
advance-Counted closes_results p c room = unfold close_results in ground arith
advance-Counted receives p c room = receive-Counted p.task_queue p c refl
advance-Counted exits p c room = exit_worker-Counted p c
advance-Counted (submits now task) p c room = submit-Counted now task p c
advance-Counted (counts_queued i) p c room = count_queued-Counted (take_at i p.admitted) p c room
advance-Counted (counts_depth i) p c room =
    count_depth-Counted (take_at i p.counted) p c room (take_at-Taken i p.counted)
advance-Counted (sends i) p c room =
    send-Counted (take_at i p.submitting) p c (take_at-Taken i p.submitting)
advance-Counted (gives_up i) p c room =
    give_up-Counted (take_at i p.submitting) p c room (take_at-Taken i p.submitting)
advance-Counted (gives_depth_back i) p c room =
    give_depth_back-Counted (take_at i p.leaving) p c room (take_at-Taken i p.leaving)
advance-Counted (leaves_queue i) p c room =
    leave_queue-Counted (take_at i p.received) p c room (take_at-Taken i p.received)
advance-Counted (begins i) p c room =
    begin-Counted (take_at i p.starting) p c room (take_at-Taken i p.starting)
advance-Counted (reports i) p c room =
    report-Counted (take_at i p.finishing) p c room (take_at-Taken i p.finishing)
advance-Counted (finishes now outcome i) p c room =
    finish-Counted now outcome (take_at i p.working) p c room (take_at-Taken i p.working)
advance-Counted (resubmits now i) p c room = resubmit-Counted now (take_at i p.retrying) p c

pub new_worker_pool-Counted : (cfg : WorkerPoolConfig) → Counted (empty_pool (with_defaults cfg))
unfolding with_defaults
new_worker_pool-Counted cfg = ground arith

-- In every interleaving of starts, submissions, workers, retries and a stop, from a pool whose counters
-- are exact and as long as tasksQueued fits an int64 and queueDepth an int32: queueDepth counts the
-- tasks between its increment and its decrement, which are being submitted or given up, wait in the
-- queue or were just taken; tasksProcessing counts those being worked on; the queue fits its channel;
-- and every submission that tasksQueued counts is unfinished, completed or failed: no task is lost.
pub Reach-Counted : {p q : WorkerPool} → Reach HasRoom p q → Counted p → Counted q
Reach-Counted at_first c = c
Reach-Counted (then_by {p = before} a r room e) c =
    subst (Leads Counted) e (advance-Counted a before (Reach-Counted r c) room)

-- `WaitForCompletion` ends its wait exactly when no task is being submitted or given up, queued, just
-- taken or worked on. A task between two counters, one whose outcome is not yet reported and one that
-- waits for a retry do not keep it waiting.
pub is_quiet_iff :
    {p q : WorkerPool}
    → Reach HasRoom p q
    → Counted p
    → (is_quiet q ≡ true) ↔ (queued q + length q.working ≡ 0)
unfolding is_quiet
is_quiet_iff {q = q} r c = let v = Reach-Counted r c in (λ h. ground arith, λ h. ground arith)
