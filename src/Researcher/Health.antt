-- ===== src/Researcher/Health.antt =====
-- The health manager of a researcher worker, pkg/workflow/worker_health.go. `IsHealthy` and
-- `CanExecute` ask the breaker, which a question can move to half-open: they return the manager.
use open_research_agent.Base.{
  ℕ, ◌*◌, Bool, true, false, not, ◌&&◌, ℤ, pos, pos_part, ◌+ℤ◌, ltb_ℤ, int64, int32, since, Option,
  String, if◌then◌else◌, ltb, Instant, zero_time, second,
}
use open_research_agent.Breaker.{
  CircuitBreaker, BreakerError, new_circuit_breaker, can_execute, record_success, record_failure,
}

pub record WorkerHealthManager : Type 0 where
  pub worker_id : String
  pub breaker : CircuitBreaker
  pub is_healthy : Bool
  pub last_check : Instant
  pub last_task_time : Instant
  pub consecutive_fails : ℤ  -- int32
  pub memory_usage : ℤ  -- int64
  pub memory_limit : ℤ  -- int64
  pub check_interval : ℕ

unfoldable pub new_worker_health_manager : String → Instant → WorkerHealthManager
unfolding new_circuit_breaker
new_worker_health_manager worker_id now = record {
  worker_id = worker_id;
  breaker = new_circuit_breaker;
  is_healthy = true;
  last_check = now;
  last_task_time = zero_time;
  consecutive_fails = pos 0;
  memory_usage = pos 0;
  memory_limit = pos (100 * 1024 * 1024);
  check_interval = 30 * second;
}

-- The tests of `IsHealthy` after the one of the breaker.
unfoldable pub passes_checks : Instant → WorkerHealthManager → Bool
passes_checks now h =
    if ltb (h.check_interval * 2) (since now h.last_check)
    then false
    else if ltb_ℤ h.memory_limit h.memory_usage
    then false
    else if ltb_ℤ (pos 5) h.consecutive_fails
    then false
    else h.is_healthy

unfoldable pub ask_breaker : Instant → WorkerHealthManager → WorkerHealthManager × Bool
ask_breaker now h =
    let (breaker, allowed) = can_execute now h.breaker in (record h { breaker = breaker }, allowed)

unfoldable pub ask_healthy : Instant → WorkerHealthManager → WorkerHealthManager × Bool
unfolding ask_breaker passes_checks
ask_healthy now h =
    let (h', allowed) = ask_breaker now h in (h', if allowed then passes_checks now h' else false)

-- `CanExecute` asks the breaker again.
unfoldable pub may_execute : Instant → WorkerHealthManager → WorkerHealthManager × Bool
unfolding ask_healthy ask_breaker
may_execute now h =
    let (h', healthy) = ask_healthy now h in if healthy then ask_breaker now h' else (h', false)

unfoldable pub health_success : Instant → WorkerHealthManager → WorkerHealthManager
health_success now h = record h {
  breaker = record_success h.breaker;
  consecutive_fails = pos 0;
  last_task_time = now;
}

unfoldable pub health_failure :
    Instant → WorkerHealthManager → WorkerHealthManager × Option BreakerError
health_failure now h =
    let (breaker, err) = record_failure now h.breaker in
    (record h { breaker = breaker; consecutive_fails = int32 (h.consecutive_fails +ℤ pos 1) }, err)

-- `PerformHealthCheck`; the comparison of the heap is of unsigned numbers.
unfoldable pub perform_health_check : Instant → ℕ → WorkerHealthManager → WorkerHealthManager
unfolding ask_breaker
perform_health_check now alloc h =
    let measured = record h { last_check = now; memory_usage = int64 (pos alloc) } in
    let (asked, allowed) = ask_breaker now measured in
    record asked { is_healthy = not (ltb (pos_part h.memory_limit) alloc) && allowed }

unfoldable pub track_resources : ℕ → WorkerHealthManager → WorkerHealthManager
track_resources alloc h = record h { memory_usage = int64 (pos alloc) }

unfoldable pub reset : Instant → WorkerHealthManager → WorkerHealthManager
unfolding new_circuit_breaker
reset now h = record h {
  is_healthy = true;
  last_check = now;
  consecutive_fails = pos 0;
  breaker = new_circuit_breaker;
}

-- `GetHealthStatus`; asking for it asks the breaker too.
pub record HealthReport : Type 0 where
  pub worker_id : String
  pub is_healthy : Bool
  pub breaker_open : Bool
  pub last_check : Instant
  pub last_task : Instant
  pub consecutive_fails : ℤ
  pub memory_usage : ℤ
  pub memory_limit : ℤ

unfoldable pub get_health_status :
    Instant → WorkerHealthManager → WorkerHealthManager × HealthReport
unfolding ask_breaker
get_health_status now h =
    let (asked, allowed) = ask_breaker now h in
    (
      asked,
      record {
        worker_id = h.worker_id;
        is_healthy = h.is_healthy;
        breaker_open = not allowed;
        last_check = h.last_check;
        last_task = h.last_task_time;
        consecutive_fails = h.consecutive_fails;
        memory_usage = h.memory_usage;
        memory_limit = h.memory_limit;
      },
    )
