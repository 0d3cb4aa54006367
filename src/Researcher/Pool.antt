-- ===== src/Researcher/Pool.antt =====
-- The researcher pool, pkg/workflow/researcher_pool.go, with the loop of its workers,
-- pkg/workflow/researcher_worker.go, as a shared state and the actions of goroutines on it.
use open_research_agent.Base.{
  any_of, str_eq, ℕ, List, [], ◌∷◌, ◌++◌, Bool, true, false, ℤ, pos, ltb_ℤ, some, none, Option,
  String, if◌then◌else◌, length, Instant,
}
use open_research_agent.Domain.{ResearchTask, ResearchResult}
use open_research_agent.Pool.{WorkerPoolConfig, with_defaults, take_at}
use open_research_agent.Researcher.Tracker.{
  PoolTaskTracker, PoolMetrics, new_pool_task_tracker, increment_tasks_queued,
  decrement_tasks_queued, register_task_start, track_task_completion,
}

-- A task that a worker is processing.
pub record InHand : Type 0 where
  pub task : ResearchTask
  pub worker_id : String

pub record ResearcherPool : Type 0 where
  pub config : WorkerPoolConfig
  pub running : Bool
  pub submitting : List ResearchTask  -- in the `select` of SubmitTask
  pub task_queue : List ResearchTask
  pub queue_closed : Bool
  pub in_hand : List InHand
  pub worker_results : List ResearchResult
  pub results_closed : Bool
  pub forwarding : Option ResearchResult  -- in the inner `select` of forwardResults
  pub consumer_results : List ResearchResult
  pub task_tracker : PoolTaskTracker
  pub failed_tasks : List String  -- not in the source: the tasks whose processing has failed

abbrev pub new_researcher_pool : WorkerPoolConfig → ResearcherPool
new_researcher_pool cfg = record {
  config = with_defaults cfg;
  running = false;
  submitting = [];
  task_queue = [];
  queue_closed = false;
  in_hand = [];
  worker_results = [];
  results_closed = false;
  forwarding = none;
  consumer_results = [];
  task_tracker = new_pool_task_tracker;
  failed_tasks = [];
}

pub data Outcome : Type 0 where
  moved : ResearcherPool → Outcome
  refused : Outcome
  panicked : Outcome

abbrev pub has_space {ℓ} : {A : Type ℓ} → WorkerPoolConfig → List A → Bool
has_space cfg channel = ltb_ℤ (pos (length channel)) cfg.queue_size

unfoldable pub start : ResearcherPool → Outcome
start p = if p.running then refused else moved (record p { running = true })

-- `Stop` up to its wait: it closes the channel that the workers still write to.
unfoldable pub stop : ResearcherPool → Outcome
stop p =
    if p.running
    then moved (record p { running = false; queue_closed = true; results_closed = true })
    else refused

abbrev with_metrics : (PoolMetrics → PoolMetrics) → PoolTaskTracker → PoolTaskTracker
with_metrics f t = record t { metrics = f t.metrics }

-- `SubmitTask` up to its `select`, and the cases of that.
unfoldable pub submit : ResearchTask → ResearcherPool → Outcome
submit task p =
    if p.running
    then moved (record p {
      submitting = task ∷ p.submitting;
      task_tracker = with_metrics increment_tasks_queued p.task_tracker;
    })
    else refused

unfoldable pub send : Option (ResearchTask × List ResearchTask) → ResearcherPool → Outcome
send none p = refused
send (some (task, others)) p =
    if p.queue_closed
    then panicked
    else if has_space p.config p.task_queue
    then moved (record p { task_queue = p.task_queue ++ task ∷ []; submitting = others })
    else refused

unfoldable pub give_up : Option (ResearchTask × List ResearchTask) → ResearcherPool → Outcome
give_up none p = refused
give_up (some (task, others)) p = moved (record p {
  submitting = others;
  task_tracker = with_metrics decrement_tasks_queued p.task_tracker;
})

abbrev pub is_held_by : String → InHand → Bool
is_held_by worker_id held = str_eq held.worker_id worker_id

-- The loop of a worker that has no task in hand takes the oldest task and notifies its start. The
-- error callback that `SetTaskCallbacks` stores is not called anywhere.
unfoldable pub receive : Instant → String → List ResearchTask → ResearcherPool → Outcome
receive now worker_id [] p = refused
receive now worker_id (task ∷ queue) p =
    if any_of (is_held_by worker_id) p.in_hand
    then refused
    else moved (record p {
      task_queue = queue;
      in_hand = record { task = task; worker_id = worker_id } ∷ p.in_hand;
      task_tracker = register_task_start now task worker_id p.task_tracker;
    })

-- `ProcessTask` ends with a result for the task, which goes to the workers' channel; it ends without
-- one when the task has failed, or when its context is done before the channel takes the result.
-- A send on the closed channel panics, which `recoverFromPanic` stops there: the task then leaves as in
-- `abandon`.
unfoldable pub deliver : ResearchResult → Option (InHand × List InHand) → ResearcherPool → Outcome
deliver result none p = refused
deliver result (some (held, others)) p =
    if p.results_closed
    then panicked
    else if has_space p.config p.worker_results
    then moved (record p {
      in_hand = others;
      worker_results = p.worker_results ++ record result { task_id = held.task.id } ∷ [];
    })
    else refused

unfoldable pub abandon : Option (InHand × List InHand) → ResearcherPool → Outcome
abandon none p = refused
abandon (some (held, others)) p =
    moved (record p { in_hand = others; failed_tasks = held.task.id ∷ p.failed_tasks })

-- The inner `select` of `forwardResults`, and a consumer that receives.
unfoldable pub pass_on : Option ResearchResult → ResearcherPool → Outcome
pass_on none p = refused
pass_on (some result) p =
    if has_space p.config p.consumer_results
    then moved
        (record p { forwarding = none; consumer_results = p.consumer_results ++ result ∷ [] })
    else refused

unfoldable pub consume : List ResearchResult → ResearcherPool → Outcome
consume [] p = refused
consume (result ∷ others) p = moved (record p { consumer_results = others })

module _ (unix : Instant → ℤ) where
  -- `forwardResults` takes a result and tracks it.
  unfoldable pub forward :
      Instant → Option ResearchResult → List ResearchResult → ResearcherPool → Outcome
  forward now (some held) results p = refused
  forward now none [] p = refused
  forward now none (result ∷ others) p = moved (record p {
    worker_results = others;
    forwarding = some result;
    task_tracker = track_task_completion unix now result p.task_tracker;
  })

  pub data Action : Type 0 where
    starts stops : Action
    submits : ResearchTask → Action
    sends gives_up abandons : ℕ → Action
    receives : Instant → String → Action
    delivers : ResearchResult → ℕ → Action
    forwards : Instant → Action
    passes_on consumes : Action

  unfoldable pub advance : Action → ResearcherPool → Outcome
  advance starts p = start p
  advance stops p = stop p
  advance (submits task) p = submit task p
  advance (sends i) p = send (take_at i p.submitting) p
  advance (gives_up i) p = give_up (take_at i p.submitting) p
  advance (receives now worker_id) p = receive now worker_id p.task_queue p
  advance (delivers result i) p = deliver result (take_at i p.in_hand) p
  advance (abandons i) p = abandon (take_at i p.in_hand) p
  advance (forwards now) p = forward now p.forwarding p.worker_results p
  advance passes_on p = pass_on p.forwarding p
  advance consumes p = consume p.consumer_results p
