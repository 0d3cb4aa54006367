-- ===== src/Watch/Restarts.antt =====
-- The workers that the health monitor of the pool restarts, pkg/workflow/health_monitor.go.
use open_research_agent.Base.{ℕ, ◌≡◌, true, pos}
use open_research_agent.Pool.{WorkerPool}
use open_research_agent.Watch.{check_health, get_health_status}

-- The pool `p` with `n` active workers.
abbrev pub with_active : ℕ → WorkerPool → WorkerPool
with_active n p = record p { metrics = record p.metrics { active_workers = pos n } }

-- The pool `p`, running, for `expected` workers.
abbrev pub running_pool : ℕ → WorkerPool → WorkerPool
running_pool expected p = record p {
  running = true;
  config = record p.config { max_workers = pos expected };
}

-- The pool has its workers again, by as many restarts as were missing; it is reported healthy, and the
-- next check starts no worker.
pub record IsRestored (missing : ℕ) (whole : WorkerPool) (outcome : WorkerPool × ℕ) : Type 0 where
  pub restored : outcome.0 ≡ whole
  pub restarts : outcome.1 ≡ missing
  pub reported : (get_health_status outcome.0).healthy ≡ true
  pub checked_again : check_health outcome.0 ≡ (whole, 0)
