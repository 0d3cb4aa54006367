-- ===== src/Breaker/Probing.antt =====
-- What an open breaker lets through, and how it recovers.
use open_research_agent.Base.{
  ℕ, zero, suc, ◌+◌, ◌-◌, ◌≤◌, ◌<◌, ◌≡◌, refl, ◌≢◌, ◌⊎◌, inl, inr, List, [], ◌∷◌, Bool, false, pos,
  pos_part, arith, since, All,
}
use open_research_agent.Breaker.{
  CircuitBreakerState, CircuitBreaker, Call, closed, open_state, half_open, succeeded, failed,
  probed, was_reset, record_success, record_failure, can_execute, step, run,
}
use open_research_agent.Breaker.Invariant.{Inv, int64-suc, step-Inv}

-- The transition diagram of the pattern.
infix 40 ◌⟶◌
pub data ◌⟶◌ : CircuitBreakerState → CircuitBreakerState → Type 0 where
  stay : {s : CircuitBreakerState} → s ⟶ s
  trip : closed ⟶ open_state
  test : open_state ⟶ half_open
  fall_back : half_open ⟶ open_state
  recover : half_open ⟶ closed

ruleset edges = (stay, trip, test, fall_back, recover)

-- Every call but a reset follows an edge of the diagram: an open breaker closes only through the
-- half-open state.
pub step-⟶ : (cb : CircuitBreaker) (c : Call) → c ≢ was_reset → cb.state ⟶ (step cb c).state
unfolding step record_success record_failure can_execute
step-⟶ cb succeeded h = grind (arith, edges)
step-⟶ cb (failed now) h = grind (arith, edges)
step-⟶ cb (probed now) h = grind (arith, edges)
step-⟶ cb was_reset h = absurd (h refl)

-- Asks the breaker at each of the times, and returns the answers.
pub probes : CircuitBreaker → List ℕ → CircuitBreaker × List Bool
probes cb [] = (cb, [])
probes cb (now ∷ times) =
    let (cb', answer) = can_execute now cb in
    let (cb'', answers) = probes cb' times in (cb'', answer ∷ answers)

-- Until more than the open duration has gone by since the last failure, an open breaker refuses
-- every operation, however often it is asked, and does not change.
pub open_refuses :
    (cb : CircuitBreaker) (times : List ℕ)
    → cb.state ≡ open_state
    → All (λ now. since now cb.last_failure ≤ cb.open_state_duration) times
    → ((probes cb times).0 ≡ cb) × All (λ answer. answer ≡ false) (probes cb times).1
unfolding probes can_execute
open_refuses cb [] h a = (refl, tt)
open_refuses cb (now ∷ times) h a = ground (arith, open_refuses cb times h a.1)

-- The outcomes of operations that a half-open breaker has let through.
pub successes : ℕ → List Call
successes zero = []
successes (suc n) = succeeded ∷ successes n

-- How many more successes close a half-open breaker.
abbrev missing : CircuitBreaker → ℕ
missing cb = pos_part cb.success_threshold - pos_part cb.success_count

half_open_success :
    (cb : CircuitBreaker)
    → Inv cb
    → cb.state ≡ half_open
    → let cb' = step cb succeeded in
      ((missing cb ≡ 1) × (cb'.state ≡ closed) × (cb'.failures ≡ pos 0))
      ⊎ ((1 < missing cb) × (cb'.state ≡ half_open) × (missing cb' ≡ missing cb - 1))
unfolding step record_success
half_open_success cb v h =
    ground (arith, int64-suc cb.success_count (pos_part cb.success_threshold))

-- A half-open breaker that lacks `n + 1` successes is still half-open after `n` of them, closes at
-- the next with its failures forgotten, and a failure in place of that one opens it again.
pub half_open_recovers :
    (n now : ℕ) (cb : CircuitBreaker)
    → Inv cb
    → cb.state ≡ half_open
    → pos_part cb.success_threshold ≡ pos_part cb.success_count + suc n
    → let cb' = run cb (successes n) in
      (cb'.state ≡ half_open)
      × ((step cb' succeeded).state ≡ closed)
      × ((step cb' succeeded).failures ≡ pos 0)
      × ((step cb' (failed now)).state ≡ open_state)
unfolding run successes
half_open_recovers zero now cb v h e =
    let next = half_open_success cb v h in
    (h, ground arith, ground arith, unfold step record_failure in ground arith)
half_open_recovers (suc n) now cb v h e = elim (half_open_success cb v h) [
  | inl (one, _, _) ↦ absurd (omega arith)
  | inr (more, still, less) ↦
      half_open_recovers n now (step cb succeeded) (step-Inv cb succeeded v) still
        (unfold step record_success in ground arith)
]
