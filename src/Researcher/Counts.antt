-- ===== src/Researcher/Counts.antt =====
-- The counters of a researcher worker, over any history of tasks.
use open_research_agent.Base.{
  ℕ, ◌+◌, ◌^◌, ◌<◌, ◌≡◌, Bool, true, false, ℤ, pos, pos_part, neg_part, int64, arith, String,
  Float64, FloatOps, Instant,
}
use open_research_agent.Researcher.Metrics.{
  WorkerMetrics, record_task_completion, record_tool_invocation, reset,
}

-- A call that changes the metrics.
pub data Call : Type 0 where
  completes : Instant → Instant → Bool → Float64 → Call
  invokes : String → Call
  resets : Call

-- Every task has succeeded or failed, and each that succeeded has a confidence.
pub record Counted (m : WorkerMetrics) : Type 0 where
  pub succeeded_pos : neg_part m.tasks_succeeded ≡ 0
  pub failed_pos : neg_part m.tasks_failed ≡ 0
  pub processed : m.tasks_processed ≡ pos (pos_part m.tasks_succeeded + pos_part m.tasks_failed)
  pub confidences : m.confidence_count ≡ m.tasks_succeeded
  pub sum_range : m.confidence_sum < 2 ^ 64

module _ (float : FloatOps) (unix : Instant → ℤ) (to_uint64 : Float64 → ℕ) where
  unfoldable pub step : Call → WorkerMetrics → WorkerMetrics
  step (completes now started success confidence) m =
      record_task_completion float unix to_uint64 now started success confidence m
  step (invokes tool) m = record_tool_invocation tool m
  step resets m = reset m

  -- The metrics that a history of fewer than 2^63 tasks leads to.
  pub data Reach (m : WorkerMetrics) : WorkerMetrics → Type 0 where
    at_first : Reach m m
    then_by :
        {n : WorkerMetrics} (c : Call)
        → Reach m n
        → pos_part n.tasks_processed + 1 < 2 ^ 63
        → Reach m (step c n)

  step-Counted :
      (c : Call) (m : WorkerMetrics)
      → pos_part m.tasks_processed + 1 < 2 ^ 63
      → Counted m
      → Counted (step c m)
  unfolding step record_task_completion record_tool_invocation reset int64
  step-Counted (completes now started true confidence) m room v = ground arith
  step-Counted (completes now started false confidence) m room v = ground arith
  step-Counted (invokes tool) m room v = ground arith
  step-Counted resets m room v = ground arith

  pub Reach-Counted : {m n : WorkerMetrics} → Reach m n → Counted m → Counted n
  Reach-Counted at_first v = v
  Reach-Counted (then_by c r room) v = step-Counted c _ room (Reach-Counted r v)
