-- ===== src/Breaker/Streaks.antt =====
-- When the breaker opens: an account of the failures in a row, independent of its counter.
use open_research_agent.Base.{
  ℕ, zero, suc, ◌-◌, ◌≤◌, ◌<◌, ◌≡◌, refl, ◌⊎◌, inl, inr, ◌↔◌, List, [], ◌∷◌, pos_part, arith, ap,
  ◌∙◌, sym, subst,
}
use open_research_agent.Breaker.{
  CircuitBreaker, Call, closed, open_state, succeeded, failed, new_circuit_breaker, record_success,
  record_failure, step, run,
}
use open_research_agent.Breaker.Invariant.{Inv, int64-suc, step-Inv, new_circuit_breaker-Inv}

-- The outcome of an operation: it succeeded, or it failed at a time.
pub data Outcome : Type 0 where
  success : Outcome
  failure : ℕ → Outcome

abbrev pub calls : List Outcome → List Call
calls [] = []
calls (success ∷ os) = succeeded ∷ calls os
calls (failure now ∷ os) = failed now ∷ calls os

-- `os` begins with `n` failures.
abbrev pub BeginsFailing : ℕ → List Outcome → Type 0
BeginsFailing zero os = Unit
BeginsFailing (suc n) [] = ⊥
BeginsFailing (suc n) (success ∷ os) = ⊥
BeginsFailing (suc n) (failure now ∷ os) = BeginsFailing n os

-- Somewhere in `os` there are `n` failures in a row.
pub data HasStreak (n : ℕ) : List Outcome → Type 0 where
  here : {os : List Outcome} → BeginsFailing n os → HasStreak n os
  later : {o : Outcome} {os : List Outcome} → HasStreak n os → HasStreak n (o ∷ os)

-- While no operation is probed or reset, an open breaker stays open.
open-run :
    (cb : CircuitBreaker) (os : List Outcome)
    → cb.state ≡ open_state
    → (run cb (calls os)).state ≡ open_state
unfolding run
open-run cb [] h = h
open-run cb (success ∷ os) h =
    open-run (step cb succeeded) os (unfold step record_success in ground arith)
open-run cb (failure now ∷ os) h =
    open-run (step cb (failed now)) os (unfold step record_failure in ground arith)

-- How many more failures in a row open a closed breaker.
abbrev room : CircuitBreaker → ℕ
room cb = pos_part cb.failure_threshold - pos_part cb.failures

-- One step of a closed breaker: a success restores the room, a failure takes one of it, and the
-- last one opens the breaker.
closed_success :
    (cb : CircuitBreaker)
    → Inv cb
    → cb.state ≡ closed
    → ((step cb succeeded).state ≡ closed)
      × (room (step cb succeeded) ≡ pos_part cb.failure_threshold)
      × ((step cb succeeded).failure_threshold ≡ cb.failure_threshold)
unfolding step record_success
closed_success cb v h = ground arith

closed_failure :
    (cb : CircuitBreaker) (now : ℕ)
    → Inv cb
    → cb.state ≡ closed
    → let cb' = step cb (failed now) in
      (cb'.failure_threshold ≡ cb.failure_threshold)
      × (((room cb ≡ 1) × (cb'.state ≡ open_state))
          ⊎ ((1 < room cb) × (cb'.state ≡ closed) × (room cb' ≡ room cb - 1)))
unfolding step record_failure
closed_failure cb now v h = ground (arith, int64-suc cb.failures (pos_part cb.failure_threshold))

BeginsFailing-mono : (n m : ℕ) (os : List Outcome) → n ≤ m → BeginsFailing m os → BeginsFailing n os
BeginsFailing-mono zero m os h b = tt
BeginsFailing-mono (suc n) zero os h b = absurd (omega arith)
BeginsFailing-mono (suc n) (suc m) [] h b = b
BeginsFailing-mono (suc n) (suc m) (success ∷ os) h b = b
BeginsFailing-mono (suc n) (suc m) (failure now ∷ os) h b =
    BeginsFailing-mono n m os (omega arith) b

-- A breaker that ends open saw enough failures in a row.
open_needs_streak :
    (os : List Outcome) (cb : CircuitBreaker) (n t : ℕ)
    → Inv cb
    → cb.state ≡ closed
    → room cb ≡ n
    → pos_part cb.failure_threshold ≡ t
    → (run cb (calls os)).state ≡ open_state
    → BeginsFailing n os ⊎ HasStreak t os
unfolding run
open_needs_streak [] cb n t v h r e o = cc
open_needs_streak (success ∷ os) cb n t v h r e o =
    let (shut, full, same) = closed_success cb v h in
    elim (open_needs_streak os (step cb succeeded) t t (step-Inv cb succeeded v) shut (full ∙ e)
      (ap pos_part same ∙ e) o) [ inl b ↦ inr (later (here b)) | inr s ↦ inr (later s) ]
open_needs_streak (failure now ∷ os) cb zero t v h r e o = elim v.failures_few [
  | inl opened ↦ absurd (opened h)
  | inr few ↦ absurd (omega arith)
]
open_needs_streak (failure now ∷ os) cb (suc n) t v h r e o =
    let (same, next) = closed_failure cb now v h in
    elim next [
      | inl (last, _) ↦
          let none_left : n ≡ 0 = omega arith in
          inl (subst (λ k. BeginsFailing k os) (sym none_left) tt)
      | inr (more, shut, less) ↦
          elim (open_needs_streak os (step cb (failed now)) n t (step-Inv cb (failed now) v) shut
            (omega arith) (ap pos_part same ∙ e) o) [ inl b ↦ inl b | inr s ↦ inr (later s) ]
    ]

begins_opens :
    (os : List Outcome) (cb : CircuitBreaker) (n : ℕ)
    → Inv cb
    → cb.state ≡ closed
    → room cb ≡ n
    → BeginsFailing n os
    → (run cb (calls os)).state ≡ open_state
unfolding run
begins_opens os cb zero v h r b = elim v.failures_few [
  | inl opened ↦ absurd (opened h)
  | inr few ↦ absurd (omega arith)
]
begins_opens [] cb (suc n) v h r b = absurd b
begins_opens (success ∷ os) cb (suc n) v h r b = absurd b
begins_opens (failure now ∷ os) cb (suc n) v h r b =
    let (same, next) = closed_failure cb now v h in
    elim next [
      | inl (last, opened) ↦ open-run (step cb (failed now)) os opened
      | inr (more, shut, less) ↦
          begins_opens os (step cb (failed now)) n (step-Inv cb (failed now) v) shut (omega arith) b
    ]

streak_opens :
    {t : ℕ} {os : List Outcome} (s : HasStreak t os) (cb : CircuitBreaker)
    → Inv cb
    → cb.state ≡ closed
    → pos_part cb.failure_threshold ≡ t
    → (run cb (calls os)).state ≡ open_state
unfolding run
streak_opens {t} {os} (here b) cb v h e =
    begins_opens os cb (room cb) v h refl (BeginsFailing-mono (room cb) t os (omega arith) b)
streak_opens (later {o = success} s) cb v h e =
    let (shut, full, same) = closed_success cb v h in
    streak_opens s (step cb succeeded) (step-Inv cb succeeded v) shut (ap pos_part same ∙ e)
streak_opens (later {o = failure now} {os = os} s) cb v h e =
    let (same, next) = closed_failure cb now v h in
    elim next [
      | inl (last, opened) ↦ open-run (step cb (failed now)) os opened
      | inr (more, shut, less) ↦
          streak_opens s (step cb (failed now)) (step-Inv cb (failed now) v) shut
            (ap pos_part same ∙ e)
    ]

-- A new breaker that is told of outcomes, with no probe and no reset between them, ends open
-- exactly when five failures in a row are among them.
pub opens_iff_streak :
    (os : List Outcome) → ((run new_circuit_breaker (calls os)).state ≡ open_state) ↔ HasStreak 5 os
unfolding new_circuit_breaker
opens_iff_streak os =
    (only, λ s. streak_opens s new_circuit_breaker new_circuit_breaker-Inv refl refl)
  where
    only : (run new_circuit_breaker (calls os)).state ≡ open_state → HasStreak 5 os
    only o =
        elim (open_needs_streak os new_circuit_breaker 5 5 new_circuit_breaker-Inv refl refl refl
          o) [ inl b ↦ here b | inr s ↦ s ]
