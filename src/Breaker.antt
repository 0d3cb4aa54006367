-- ===== src/Breaker.antt =====
-- The circuit breaker, pkg/workflow/circuit_breaker.go. Each method holds the breaker's lock, so a
-- call is one step. `time.Now()` is an argument of the calls that read the clock.
pub mod Invariant
pub mod Streaks
pub mod Probing
mod Examples
use open_research_agent.Base.{
  ℕ, ◌*◌, Bool, true, false, Option, none, some, List, [], ◌∷◌, if◌then◌else◌, ltb, ℤ, pos, ◌+ℤ◌,
  leb_ℤ, int64, Instant, zero_time, second, since,
}

pub data CircuitBreakerState : Type 0 where
  closed open_state half_open : CircuitBreakerState

-- The two messages of `RecordFailure`.
pub data BreakerError : Type 0 where
  too_many_failures failure_threshold_exceeded : BreakerError

pub record CircuitBreaker : Type 0 where
  pub failures : ℤ  -- int
  pub last_failure : Instant
  pub state : CircuitBreakerState
  pub success_count : ℤ  -- int
  pub half_open_start : Instant
  pub failure_threshold : ℤ  -- int
  pub success_threshold : ℤ  -- int
  pub half_open_timeout : ℕ
  pub open_state_duration : ℕ

unfoldable pub new_circuit_breaker : CircuitBreaker
new_circuit_breaker = record {
  failures = pos 0;
  last_failure = zero_time;
  state = closed;
  success_count = pos 0;
  half_open_start = zero_time;
  failure_threshold = pos 5;
  success_threshold = pos 3;
  half_open_timeout = 30 * second;
  open_state_duration = 30 * second;
}

success_in : CircuitBreakerState → CircuitBreaker → CircuitBreaker
success_in half_open cb =
    let count = int64 (cb.success_count +ℤ pos 1) in
    if leb_ℤ cb.success_threshold count
    then record cb { state = closed; failures = pos 0; success_count = pos 0 }
    else record cb { success_count = count }
success_in closed cb = record cb { failures = pos 0 }
success_in open_state cb = cb

unfoldable pub record_success : CircuitBreaker → CircuitBreaker
unfolding success_in
record_success cb = success_in cb.state cb

unfoldable pub failure_in :
    CircuitBreakerState → CircuitBreaker → CircuitBreaker × Option BreakerError
failure_in half_open cb =
    (record cb { state = open_state; success_count = pos 0 }, some too_many_failures)
failure_in _ cb =
    if leb_ℤ cb.failure_threshold cb.failures
    then (record cb { state = open_state }, some failure_threshold_exceeded)
    else (cb, none)

unfoldable pub record_failure : Instant → CircuitBreaker → CircuitBreaker × Option BreakerError
unfolding failure_in
record_failure now cb =
    let counted = record cb { failures = int64 (cb.failures +ℤ pos 1); last_failure = now } in
    failure_in counted.state counted

unfoldable pub can_execute_in :
    CircuitBreakerState → Instant → CircuitBreaker → CircuitBreaker × Bool
can_execute_in closed now cb = (cb, true)
can_execute_in half_open now cb = (cb, true)
can_execute_in open_state now cb =
    if ltb cb.open_state_duration (since now cb.last_failure)
    then (record cb { state = half_open; half_open_start = now; success_count = pos 0 }, true)
    else (cb, false)

unfoldable pub can_execute : Instant → CircuitBreaker → CircuitBreaker × Bool
unfolding can_execute_in
can_execute now cb = can_execute_in cb.state now cb

abbrev pub get_state : CircuitBreaker → CircuitBreakerState
get_state cb = cb.state

unfoldable pub reset : CircuitBreaker → CircuitBreaker
reset cb = record cb {
  state = closed;
  failures = pos 0;
  success_count = pos 0;
  last_failure = zero_time;
  half_open_start = zero_time;
}

-- A call of the breaker's interface, and a history of calls.
pub data Call : Type 0 where
  succeeded : Call
  failed : Instant → Call
  probed : Instant → Call
  was_reset : Call

unfoldable pub step : CircuitBreaker → Call → CircuitBreaker
step cb succeeded = record_success cb
step cb (failed now) = (record_failure now cb).0
step cb (probed now) = (can_execute now cb).0
step cb was_reset = reset cb

unfoldable pub run : CircuitBreaker → List Call → CircuitBreaker
run cb [] = cb
run cb (c ∷ cs) = run (step cb c) cs
