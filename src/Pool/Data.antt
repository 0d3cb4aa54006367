-- ===== src/Pool/Data.antt =====
-- The pool's data, and `NewWorkerPool`, pkg/workflow/worker_pool.go.
use open_research_agent.Base.{
  ℕ, zero, suc, ◌*◌, ◌⊎◌, inl, inr, List, [], ◌∷◌, Bool, false, ℤ, pos, ltb_ℤ, leb_ℤ, some, none,
  Option, String, if◌then◌else◌, length, Instant, minute,
}
use open_research_agent.Domain.{ResearchTask, ResearchResult}

pub record WorkerPoolConfig : Type 0 where
  pub max_workers : ℤ
  pub queue_size : ℤ
  pub worker_timeout : ℤ  -- time.Duration

pub record WorkerPoolMetrics : Type 0 where
  pub tasks_queued : ℤ  -- int64
  pub tasks_processing : ℤ  -- int64
  pub tasks_completed : ℤ  -- int64
  pub tasks_failed : ℤ  -- int64
  pub active_workers : ℤ  -- int32
  pub queue_depth : ℤ  -- int32
  pub total_process_time : ℤ  -- int64

pub record WorkerTask : Type 0 where
  pub task : ResearchTask
  pub start_time : Instant
  pub retries : ℤ

-- What `ProcessTask` returns; a result can be nil.
pub data TaskOutcome : Type 0 where
  processed : Option ResearchResult → TaskOutcome
  processing_failed : String → TaskOutcome

-- The error that `runWorker` sends: the task, the retries and the cause.
pub record RetriesExceeded : Type 0 where
  pub task_id : String
  pub retries : ℤ
  pub cause : String

-- Where a call of `Start` stands: so many workers are still to be launched, after one that runs and is
-- not yet counted in activeWorkers, or with all that run counted.
pub data Launch : Type 0 where
  not_launching : Launch
  counting : ℕ → Launch
  launching : ℕ → Launch

pub record WorkerPool : Type 0 where
  pub config : WorkerPoolConfig
  pub running : Bool
  pub cancelled : Bool  -- p.ctx is done
  pub task_queue : List WorkerTask
  pub queue_closed : Bool
  pub result_ch : List (Option ResearchResult)
  pub error_ch : List RetriesExceeded
  pub results_closed : Bool
  pub metrics : WorkerPoolMetrics
  pub launch : Launch
  pub admitted : List WorkerTask  -- in Submit, the pool runs
  pub counted : List WorkerTask  -- counted in tasksQueued, not in queueDepth
  pub submitting : List WorkerTask  -- in the `select` of Submit
  pub received : List WorkerTask  -- taken off the queue
  pub starting : List WorkerTask  -- no longer counted in queueDepth
  pub working : List WorkerTask  -- counted in tasksProcessing
  pub finishing : List (WorkerTask × TaskOutcome)  -- no longer counted
  pub retrying : List WorkerTask  -- asleep before a retry
  pub leaving : List WorkerTask  -- given up by Submit, still counted in queueDepth

pub data PoolError : Type 0 where
  config_required client_required : PoolError

abbrev pub no_metrics : WorkerPoolMetrics
no_metrics = record {
  tasks_queued = pos 0;
  tasks_processing = pos 0;
  tasks_completed = pos 0;
  tasks_failed = pos 0;
  active_workers = pos 0;
  queue_depth = pos 0;
  total_process_time = pos 0;
}

-- The defaults of `NewWorkerPool`.
unfoldable pub with_defaults : WorkerPoolConfig → WorkerPoolConfig
with_defaults cfg = record {
  max_workers = if leb_ℤ cfg.max_workers (pos 0) then pos 5 else cfg.max_workers;
  queue_size = if leb_ℤ cfg.queue_size (pos 0) then pos 50 else cfg.queue_size;
  worker_timeout =
      if leb_ℤ cfg.worker_timeout (pos 0) then pos (2 * minute) else cfg.worker_timeout;
}

abbrev pub empty_pool : WorkerPoolConfig → WorkerPool
empty_pool cfg = record {
  config = cfg;
  running = false;
  cancelled = false;
  task_queue = [];
  queue_closed = false;
  result_ch = [];
  error_ch = [];
  results_closed = false;
  metrics = no_metrics;
  launch = not_launching;
  admitted = [];
  counted = [];
  submitting = [];
  received = [];
  starting = [];
  working = [];
  finishing = [];
  retrying = [];
  leaving = [];
}

unfoldable pub new_worker_pool : Option WorkerPoolConfig → Option ℕ → PoolError ⊎ WorkerPool
unfolding with_defaults
new_worker_pool none llm_client = inl config_required
new_worker_pool (some cfg) none = inl client_required
new_worker_pool (some cfg) (some client) = inr (empty_pool (with_defaults cfg))

-- What an action does: it moves the pool on, it cannot take place or returns an error that leaves
-- the pool as it is, or it is a send on a closed channel.
pub data Outcome : Type 0 where
  moved : WorkerPool → Outcome
  refused : Outcome
  panicked : Outcome

module _ {ℓ} {A : Type ℓ} where
  -- The element at a place, and the others.
  abbrev pub push_front : A → Option (A × List A) → Option (A × List A)
  push_front x none = none
  push_front x (some (y, rest)) = some (y, x ∷ rest)

  abbrev pub take_at : ℕ → List A → Option (A × List A)
  take_at i [] = none
  take_at zero (x ∷ xs) = some (x, xs)
  take_at (suc i) (x ∷ xs) = push_front x (take_at i xs)

  -- A buffered channel takes another element.
  abbrev pub has_space : WorkerPoolConfig → List A → Bool
  has_space cfg channel = ltb_ℤ (pos (length channel)) cfg.queue_size
