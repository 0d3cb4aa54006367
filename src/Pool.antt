-- ===== src/Pool.antt =====
-- The worker pool, pkg/workflow/worker_pool.go. Goroutines interleave: a pool is the shared state with
-- the tasks by the place in the code that holds them, and an action is what one goroutine does between
-- two points at which another can see the difference.
mod Data
mod Steps
pub mod Counts
pub mod Retries
mod Examples
unfoldable pub use Data.*
unfoldable pub use Steps.*
use open_research_agent.Base.{ℕ, ◌+◌, ◌-◌, ◌^◌, ◌<◌, ◌≡◌, Bool, ◌&&◌, pos, pos_part, eqb_ℤ, Instant}
use open_research_agent.Domain.{ResearchTask}

pub data Action : Type 0 where
  starts stops closes_results receives exits : Action
  submits : Instant → ResearchTask → Action
  counts_queued counts_depth sends gives_up gives_depth_back leaves_queue begins reports :
      ℕ → Action
  finishes : Instant → TaskOutcome → ℕ → Action
  resubmits : Instant → ℕ → Action

unfoldable pub advance : Action → WorkerPool → Outcome
advance starts p = start p
advance stops p = stop p
advance closes_results p = close_results p
advance receives p = receive p.task_queue p
advance exits p = exit_worker p
advance (submits now task) p = submit now task p
advance (counts_queued i) p = count_queued (take_at i p.admitted) p
advance (counts_depth i) p = count_depth (take_at i p.counted) p
advance (sends i) p = send (take_at i p.submitting) p
advance (gives_up i) p = give_up (take_at i p.submitting) p
advance (gives_depth_back i) p = give_depth_back (take_at i p.leaving) p
advance (leaves_queue i) p = leave_queue (take_at i p.received) p
advance (begins i) p = begin (take_at i p.starting) p
advance (reports i) p = report (take_at i p.finishing) p
advance (finishes now outcome i) p = finish now outcome (take_at i p.working) p
advance (resubmits now i) p = resubmit now (take_at i p.retrying) p

-- The test that `WaitForCompletion` makes at each tick.
unfoldable pub is_quiet : WorkerPool → Bool
is_quiet p = eqb_ℤ p.metrics.queue_depth (pos 0) && eqb_ℤ p.metrics.tasks_processing (pos 0)

-- `GetMetrics` returns fresh counters.
unfoldable pub get_metrics : WorkerPool → WorkerPoolMetrics
get_metrics p = no_metrics

-- The states that a pool can reach through states that satisfy `room`.
pub data Reach (room : WorkerPool → Type 0) (from : WorkerPool) : WorkerPool → Type 0 where
  at_first : Reach room from from
  then_by :
      {p q : WorkerPool} (a : Action)
      → Reach room from p
      → room p
      → advance a p ≡ moved q
      → Reach room from q
