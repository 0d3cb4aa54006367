-- ===== src/Breaker/Invariant.antt =====
-- What holds of a breaker between two calls, with the counters' overflow included.
use open_research_agent.Base.{
  ℕ, ◌+◌, ◌<◌, ◌^◌, ◌≡◌, ◌≢◌, ◌⊎◌, List, [], ◌∷◌, ℤ, pos, pos_part, neg_part, ◌+ℤ◌, int64, arith,
}
use open_research_agent.Breaker.{
  CircuitBreaker, Call, closed, half_open, succeeded, failed, probed, was_reset,
  new_circuit_breaker, record_success, record_failure, can_execute, reset, step, run,
}

-- Both thresholds are positive numbers of type int. A closed breaker has counted fewer failures
-- than the threshold; successes are counted in the half-open state only, and are too few to close.
pub record Inv (cb : CircuitBreaker) : Type 0 where
  pub failure_threshold_pos : neg_part cb.failure_threshold ≡ 0
  pub failure_threshold_range : pos_part cb.failure_threshold < 2 ^ 63
  pub success_threshold_pos : neg_part cb.success_threshold ≡ 0
  pub success_threshold_range : pos_part cb.success_threshold < 2 ^ 63
  pub failure_threshold_some : 0 < pos_part cb.failure_threshold
  pub success_threshold_some : 0 < pos_part cb.success_threshold
  pub successes_pos : neg_part cb.success_count ≡ 0
  pub successes_few : pos_part cb.success_count < pos_part cb.success_threshold
  pub successes_probing : (cb.state ≡ half_open) ⊎ (pos_part cb.success_count ≡ 0)
  pub failures_pos : (cb.state ≢ closed) ⊎ (neg_part cb.failures ≡ 0)
  pub failures_few : (cb.state ≢ closed) ⊎ (pos_part cb.failures < pos_part cb.failure_threshold)

pub new_circuit_breaker-Inv : Inv new_circuit_breaker
unfolding new_circuit_breaker
new_circuit_breaker-Inv = ground arith

-- An increment of a counter that is below a number of type int does not wrap.
pub int64-suc :
    (a : ℤ) (n : ℕ)
    → neg_part a ≡ 0
    → pos_part a < n
    → n < 2 ^ 63
    → (neg_part (int64 (a +ℤ pos 1)) ≡ 0) × (pos_part (int64 (a +ℤ pos 1)) ≡ pos_part a + 1)
unfolding int64
int64-suc a n h k l = ground arith

record_success-Inv : (cb : CircuitBreaker) → Inv cb → Inv (record_success cb)
unfolding record_success
record_success-Inv cb v = ground (arith, int64-suc cb.success_count (pos_part cb.success_threshold))

record_failure-Inv : (now : ℕ) (cb : CircuitBreaker) → Inv cb → Inv (record_failure now cb).0
unfolding record_failure
record_failure-Inv now cb v = ground (arith, int64-suc cb.failures (pos_part cb.failure_threshold))

can_execute-Inv : (now : ℕ) (cb : CircuitBreaker) → Inv cb → Inv (can_execute now cb).0
unfolding can_execute
can_execute-Inv now cb v = ground arith

reset-Inv : (cb : CircuitBreaker) → Inv cb → Inv (reset cb)
unfolding reset
reset-Inv cb v = ground arith

pub step-Inv : (cb : CircuitBreaker) (c : Call) → Inv cb → Inv (step cb c)
unfolding step
step-Inv cb succeeded v = record_success-Inv cb v
step-Inv cb (failed now) v = record_failure-Inv now cb v
step-Inv cb (probed now) v = can_execute-Inv now cb v
step-Inv cb was_reset v = reset-Inv cb v

-- Every history of calls keeps the invariant: a closed breaker has counted fewer failures than its
-- threshold, and fewer successes than close it are counted, in the half-open state only.
pub run-Inv : (cb : CircuitBreaker) (cs : List Call) → Inv cb → Inv (run cb cs)
unfolding run
run-Inv cb [] v = v
run-Inv cb (c ∷ cs) v = run-Inv (step cb c) cs (step-Inv cb c v)
