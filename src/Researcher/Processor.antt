-- ===== src/Researcher/Processor.antt =====
-- The task processor, pkg/workflow/task_processor.go, over the worker's health and metrics. What the
-- executor returns at each attempt, and whether a channel takes what is sent, are arguments.
use open_research_agent.Base.{
  ℕ, zero, suc, ◌+◌, ◌*◌, ◌≡◌, List, [], ◌∷◌, ◌++◌, Bool, true, false, not, ℤ, String,
  if◌then◌else◌, Float64, FloatOps, float_zero, Instant, second,
}
use open_research_agent.Domain.{ResearchResult}
use open_research_agent.Researcher.Executor.{Research, found, not_found, research_panicked}
use open_research_agent.Researcher.Metrics.{WorkerMetrics, record_task_completion}
use open_research_agent.Researcher.Health.{
  WorkerHealthManager, may_execute, health_success, health_failure, track_resources,
}

-- `TaskProcessor`, with what it has sent on its channels.
pub record TaskProcessor : Type 0 where
  pub health : WorkerHealthManager
  pub metrics : WorkerMetrics
  pub results : List ResearchResult
  pub errors : List String

-- A wait of `attempt` times two seconds before each attempt but the first.
abbrev pub backoff : ℕ → ℕ
backoff attempt = attempt * (2 * second)

-- The loop of `executeWithRetry`: the attempts that are left, the number of the next one, the last
-- error, and the time slept; it returns the outcome and that time.
unfoldable pub retry : (ℕ → Research) → ℕ → ℕ → String → ℕ → Research × ℕ
retry research zero attempt last slept = (not_found last, slept)
retry research (suc left) attempt last slept = elim (research attempt) [
  | found result ↦ (found result, slept + backoff attempt)
  | not_found err ↦ retry research left (suc attempt) err (slept + backoff attempt)
  | research_panicked ↦ (research_panicked, slept + backoff attempt)
]

abbrev pub max_retries : ℕ
max_retries = 2

unfoldable pub execute_with_retry : (ℕ → Research) → Research × ℕ
unfolding retry
execute_with_retry research = retry research (suc max_retries) 0 "" 0

-- What a call of `ProcessTask` meets.
pub record Visit : Type 0 where
  pub started : Instant
  pub ended : Instant
  pub alloc_before : ℕ
  pub alloc_after : ℕ
  pub research : ℕ → Research
  pub result_taken : Bool  -- or the context was done first
  pub error_taken : Bool  -- or the channel was full

-- `handleError`, and the send of `recoverFromPanic`.
unfoldable pub send_error : Visit → String → TaskProcessor → TaskProcessor
send_error v err p = record p { errors = if v.error_taken then p.errors ++ err ∷ [] else p.errors }

module _ (float : FloatOps) (unix : Instant → ℤ) (to_uint64 : Float64 → ℕ) where
  -- `handleTaskSuccess`, `handleTaskFailure` and `recoverFromPanic`.
  unfoldable pub conclude : Visit → Research → TaskProcessor → TaskProcessor
  unfolding send_error
  conclude v (found result) p = record p {
    metrics =
        record_task_completion float unix to_uint64 v.ended v.started true result.confidence
          p.metrics;
    health = health_success v.ended p.health;
    results = if v.result_taken then p.results ++ result ∷ [] else p.results;
  }
  conclude v (not_found err) p = send_error v err (record p {
    metrics =
        record_task_completion float unix to_uint64 v.ended v.started false float_zero p.metrics;
    health = (health_failure v.ended p.health).0;
  })
  conclude v research_panicked p =
      send_error v "task processor panic"
        (record p { health = (health_failure v.ended p.health).0 })

  unfoldable pub process_task : Visit → TaskProcessor → TaskProcessor
  unfolding conclude send_error execute_with_retry
  process_task v p =
      let (health, allowed) = may_execute v.started p.health in
      let asked = record p { health = health } in
      if not allowed
      then send_error v "health check failed" asked
      else let tracked = record asked { health = track_resources v.alloc_before health } in
        let done = conclude v (execute_with_retry v.research).0 tracked in
        record done { health = track_resources v.alloc_after done.health }

-- The attempts before `n` all failed.
abbrev pub AllFailed : (ℕ → Research) → ℕ → Type 0
AllFailed research zero = Unit
AllFailed research (suc n) = ((err : String) × (research n ≡ not_found err)) × AllFailed research n

-- The time slept before attempt `n`: 2, then 4 seconds.
abbrev pub slept_before : ℕ → ℕ
slept_before zero = 0
slept_before (suc n) = slept_before n + backoff n

-- An attempt ends the loop: it is no error.
abbrev pub IsFinal : Research → Type 0
IsFinal (not_found err) = ⊥
IsFinal _ = Unit
