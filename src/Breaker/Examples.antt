-- ===== src/Breaker/Examples.antt =====
-- The breaker on concrete histories.
use open_research_agent.Base.{◌*◌, ◌≡◌, refl, List, [], ◌∷◌, second, int64}
use open_research_agent.Breaker.{
  CircuitBreaker, Call, closed, open_state, failed, probed, new_circuit_breaker, record_success,
  record_failure, step, run,
}
use open_research_agent.Breaker.Invariant.{Inv, run-Inv, new_circuit_breaker-Inv}
use open_research_agent.Breaker.Streaks.{
  Outcome, success, failure, HasStreak, opens_iff_streak, calls,
}
use open_research_agent.Breaker.Probing.{◌⟶◌, step-⟶}

abbrev five_failures : List Call
five_failures = failed 1 ∷ failed 2 ∷ failed 3 ∷ failed 4 ∷ failed 5 ∷ []

abbrev tripped : CircuitBreaker
tripped = run new_circuit_breaker five_failures

abbrev halfway : CircuitBreaker
halfway = step tripped (probed (31 * second))

tripped_is_open : tripped.state ≡ open_state
unfolding run step record_failure new_circuit_breaker int64
tripped_is_open = refl

run-Inv_example : Inv tripped
run-Inv_example = run-Inv new_circuit_breaker five_failures new_circuit_breaker-Inv

abbrev mixed : List Outcome
mixed = failure 1 ∷ failure 2 ∷ success ∷ failure 3 ∷ failure 4 ∷ failure 5 ∷ failure 6 ∷ []

mixed_stays_closed : (run new_circuit_breaker (calls mixed)).state ≡ closed
unfolding run step record_failure record_success new_circuit_breaker int64
mixed_stays_closed = refl

opens_iff_streak_example :
    HasStreak 5 (failure 9 ∷ failure 9 ∷ failure 9 ∷ failure 9 ∷ failure 9 ∷ [])
unfolding run step record_failure new_circuit_breaker int64
opens_iff_streak_example =
    (opens_iff_streak (failure 9 ∷ failure 9 ∷ failure 9 ∷ failure 9 ∷ failure 9 ∷ [])).0 refl

step-⟶_example : tripped.state ⟶ halfway.state
step-⟶_example = step-⟶ tripped (probed (31 * second)) (λ e. cc)
