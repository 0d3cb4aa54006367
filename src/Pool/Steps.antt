-- ===== src/Pool/Steps.antt =====
-- What the goroutines of the pool do, one function for each point between two that another goroutine
-- can tell apart, pkg/workflow/worker_pool.go.
use open_research_agent.Base.{
  zero, suc, pos_part, Bool, ℕ, ◌+◌, List, [], ◌∷◌, ◌++◌, true, false, ◌&&◌, pos, ◌+ℤ◌, ◌-ℤ◌, ltb_ℤ,
  int64, int32, some, none, Option, String, if◌then◌else◌, length, Instant,
}
use open_research_agent.Domain.{ResearchTask, ResearchResult}
use open_research_agent.Pool.Data.{
  not_launching, counting, launching, Launch, WorkerPoolMetrics, WorkerTask, TaskOutcome,
  WorkerPool, Outcome, has_space, processed, processing_failed, moved, refused, panicked,
}

-- `Start`, without the monitors that it starts, one step at a time: a worker is launched, and then
-- counted; after the last one the pool runs.
unfoldable pub start_from : Launch → WorkerPool → Outcome
start_from not_launching p =
    if p.running
    then refused
    else moved (record p { launch = launching (pos_part p.config.max_workers) })
start_from (launching (suc left)) p = moved (record p { launch = counting left })
start_from (counting left) p = moved (record p {
  launch = launching left;
  metrics = record (p.metrics) { active_workers = int32 (p.metrics.active_workers +ℤ pos 1) };
})
start_from (launching zero) p = moved (record p { launch = not_launching; running = true })

unfoldable pub start : WorkerPool → Outcome
unfolding start_from
start p = start_from p.launch p

-- `Stop` up to the wait for the workers, and what it does after it.
unfoldable pub stop : WorkerPool → Outcome
stop p =
    if p.running
    then moved (record p { running = false; cancelled = true; queue_closed = true })
    else refused

unfoldable pub close_results : WorkerPool → Outcome
close_results p = if p.queue_closed then moved (record p { results_closed = true }) else refused

-- `Submit` up to its first counter: a new task has no retries.
unfoldable pub submit : Instant → ResearchTask → WorkerPool → Outcome
submit now task p =
    if p.running
    then moved (record p {
      admitted = record { task = task; start_time = now; retries = pos 0 } ∷ p.admitted;
    })
    else refused

-- The two counters of `Submit`, one after the other.
unfoldable pub count_queued : Option (WorkerTask × List WorkerTask) → WorkerPool → Outcome
count_queued none p = refused
count_queued (some (task, others)) p = moved (record p {
  metrics = record (p.metrics) { tasks_queued = int64 (p.metrics.tasks_queued +ℤ pos 1) };
  admitted = others;
  counted = task ∷ p.counted;
})

unfoldable pub count_depth : Option (WorkerTask × List WorkerTask) → WorkerPool → Outcome
count_depth none p = refused
count_depth (some (task, others)) p = moved (record p {
  metrics = record (p.metrics) { queue_depth = int32 (p.metrics.queue_depth +ℤ pos 1) };
  counted = others;
  submitting = task ∷ p.submitting;
})

-- The three cases of its `select`: the send, and the timeout or the end of the context, after which the
-- two counters go down again, one after the other.
unfoldable pub send : Option (WorkerTask × List WorkerTask) → WorkerPool → Outcome
send none p = refused
send (some (task, others)) p =
    if p.queue_closed
    then panicked
    else if has_space p.config p.task_queue
    then moved (record p { task_queue = p.task_queue ++ task ∷ []; submitting = others })
    else refused

unfoldable pub give_up : Option (WorkerTask × List WorkerTask) → WorkerPool → Outcome
give_up none p = refused
give_up (some (task, others)) p = moved (record p {
  metrics = record (p.metrics) { tasks_queued = int64 (p.metrics.tasks_queued -ℤ pos 1) };
  submitting = others;
  leaving = task ∷ p.leaving;
})

unfoldable pub give_depth_back : Option (WorkerTask × List WorkerTask) → WorkerPool → Outcome
give_depth_back none p = refused
give_depth_back (some (task, others)) p = moved (record p {
  metrics = record (p.metrics) { queue_depth = int32 (p.metrics.queue_depth -ℤ pos 1) };
  leaving = others;
})

-- How many workers hold a task.
abbrev pub busy : WorkerPool → ℕ
busy p = length p.received + length p.starting + length p.working + length p.finishing

-- How many goroutines run `runWorker`: those that are counted, and one that `Start` has launched and
-- not yet counted.
abbrev pub uncounted : Launch → ℕ
uncounted (counting left) = 1
uncounted _ = 0

abbrev pub has_idle_worker : WorkerPool → Bool
has_idle_worker p = ltb_ℤ (pos (busy p)) (p.metrics.active_workers +ℤ pos (uncounted p.launch))

-- `runWorker`: an idle worker takes the oldest task.
unfoldable pub receive : List WorkerTask → WorkerPool → Outcome
receive [] p = refused
receive (task ∷ queue) p =
    if has_idle_worker p
    then moved (record p { task_queue = queue; received = task ∷ p.received })
    else refused

unfoldable pub leave_queue : Option (WorkerTask × List WorkerTask) → WorkerPool → Outcome
leave_queue none p = refused
leave_queue (some (task, others)) p = moved (record p {
  metrics = record (p.metrics) { queue_depth = int32 (p.metrics.queue_depth -ℤ pos 1) };
  received = others;
  starting = task ∷ p.starting;
})

unfoldable pub begin : Option (WorkerTask × List WorkerTask) → WorkerPool → Outcome
begin none p = refused
begin (some (task, others)) p = moved (record p {
  metrics = record (p.metrics) { tasks_processing = int64 (p.metrics.tasks_processing +ℤ pos 1) };
  starting = others;
  working = task ∷ p.working;
})

-- `ProcessTask` has returned.
unfoldable pub finish :
    Instant → TaskOutcome → Option (WorkerTask × List WorkerTask) → WorkerPool → Outcome
finish now outcome none p = refused
finish now outcome (some (task, others)) p = moved (record p {
  metrics = record (p.metrics) {
    tasks_processing = int64 (p.metrics.tasks_processing -ℤ pos 1);
    total_process_time = int64 (p.metrics.total_process_time +ℤ (pos now -ℤ pos task.start_time));
  };
  working = others;
  finishing = (task, outcome) ∷ p.finishing;
})

-- The two branches after it. A full channel drops what is sent.
unfoldable pub report_result :
    Option ResearchResult → List (WorkerTask × TaskOutcome) → WorkerPool → Outcome
report_result result others p =
    if p.results_closed
    then panicked
    else moved (record p {
      metrics = record (p.metrics) { tasks_completed = int64 (p.metrics.tasks_completed +ℤ pos 1) };
      result_ch =
          if has_space p.config p.result_ch then p.result_ch ++ result ∷ [] else p.result_ch;
      finishing = others;
    })

abbrev count_failed : WorkerPool → WorkerPoolMetrics
count_failed p = record (p.metrics) { tasks_failed = int64 (p.metrics.tasks_failed +ℤ pos 1) }

unfoldable pub report_failure :
    String → WorkerTask → List (WorkerTask × TaskOutcome) → WorkerPool → Outcome
report_failure cause task others p =
    if ltb_ℤ task.retries (pos 3)
    then moved (record p {
      metrics = count_failed p;
      finishing = others;
      retrying = record task { retries = int64 (task.retries +ℤ pos 1) } ∷ p.retrying;
    })
    else if p.results_closed
    then panicked
    else moved (record p {
      metrics = count_failed p;
      error_ch =
          if has_space p.config p.error_ch
          then p.error_ch
            ++ record { task_id = task.task.id; retries = task.retries; cause = cause } ∷ []
          else p.error_ch;
      finishing = others;
    })

unfoldable pub report :
    Option ((WorkerTask × TaskOutcome) × List (WorkerTask × TaskOutcome)) → WorkerPool → Outcome
unfolding report_result report_failure
report none p = refused
report (some ((task, processed result), others)) p = report_result result others p
report (some ((task, processing_failed cause), others)) p = report_failure cause task others p

-- The goroutine of a retry wakes up and calls `Submit` with the task.
unfoldable pub resubmit : Instant → Option (WorkerTask × List WorkerTask) → WorkerPool → Outcome
unfolding submit
resubmit now none p = refused
resubmit now (some (task, others)) p =
    if p.running
    then submit now task.task (record p { retrying = others })
    else moved (record p { retrying = others })

-- An idle worker leaves when the pool's context is done; `Stop` ends it before it closes the queue.
unfoldable pub exit_worker : WorkerPool → Outcome
exit_worker p =
    if p.cancelled && has_idle_worker p
    then moved (record p {
      metrics = record (p.metrics) { active_workers = int32 (p.metrics.active_workers -ℤ pos 1) };
    })
    else refused
