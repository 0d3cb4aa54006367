-- ===== src/Researcher/Metrics.antt =====
-- The metrics of a researcher worker, pkg/workflow/worker_metrics.go. Unix time, float operations and
-- the conversion of a float64 to a uint64 are parameters.
use open_research_agent.Base.{
  ℕ, ◌+◌, ◌%◌, ◌^◌, List, [], Bool, ℤ, pos, ◌+ℤ◌, ◌-ℤ◌, ltb_ℤ, eqb_ℤ, int64, some, none, Option,
  String, if◌then◌else◌, Float64, FloatOps, float_zero, Instant, float_100, float_1000,
}
use open_research_agent.Base.GoMap.{lookup, insert}
use open_research_agent.Monitor.{div_ℤ}

pub record WorkerMetrics : Type 0 where
  pub worker_id : String
  pub tasks_processed : ℤ  -- int64, as the others but for confidence_sum
  pub tasks_succeeded : ℤ
  pub tasks_failed : ℤ
  pub total_process_time : ℤ
  pub last_task_time : ℤ
  pub confidence_sum : ℕ  -- uint64, thousandths
  pub confidence_count : ℤ
  pub tool_invocations : List (String × ℤ)

abbrev pub new_worker_metrics : String → WorkerMetrics
new_worker_metrics worker_id = record {
  worker_id = worker_id;
  tasks_processed = pos 0;
  tasks_succeeded = pos 0;
  tasks_failed = pos 0;
  total_process_time = pos 0;
  last_task_time = pos 0;
  confidence_sum = 0;
  confidence_count = pos 0;
  tool_invocations = [];
}

unfoldable pub record_tool_invocation : String → WorkerMetrics → WorkerMetrics
record_tool_invocation tool m =
    let count : ℤ = elim (lookup tool m.tool_invocations) [ none ↦ pos 0 | some n ↦ n ] in
    record m { tool_invocations = insert tool (int64 (count +ℤ pos 1)) m.tool_invocations }

unfoldable pub reset : WorkerMetrics → WorkerMetrics
reset m = new_worker_metrics m.worker_id

pub record ResearcherStats : Type 0 where
  pub worker_id : String
  pub tasks_processed : ℤ
  pub tasks_succeeded : ℤ
  pub tasks_failed : ℤ
  pub avg_process_time : ℤ
  pub last_task_time : Option ℤ  -- none is the zero time, else the seconds of Unix time
  pub avg_confidence : Float64
  pub success_rate : Float64
  pub tool_invocations : List (String × ℤ)

module _ (float : FloatOps) (unix : Instant → ℤ) (to_uint64 : Float64 → ℕ) where
  unfoldable pub record_task_completion :
      Instant → Instant → Bool → Float64 → WorkerMetrics → WorkerMetrics
  record_task_completion now start_time success confidence m =
      let counted = record m {
        tasks_processed = int64 (m.tasks_processed +ℤ pos 1);
        tasks_succeeded = if success then int64 (m.tasks_succeeded +ℤ pos 1) else m.tasks_succeeded;
        tasks_failed = if success then m.tasks_failed else int64 (m.tasks_failed +ℤ pos 1);
        confidence_sum =
            if success
            then (m.confidence_sum + to_uint64 (float.mul confidence float_1000)) % 2 ^ 64
            else m.confidence_sum;
        confidence_count =
            if success then int64 (m.confidence_count +ℤ pos 1) else m.confidence_count;
      } in
      record counted {
        total_process_time = int64 (m.total_process_time +ℤ (pos now -ℤ pos start_time));
        last_task_time = unix now;
      }

  unfoldable pub calculate_success_rate : WorkerMetrics → Float64
  calculate_success_rate m =
      if eqb_ℤ m.tasks_processed (pos 0)
      then float_zero
      else float.mul (float.div (float.of_int m.tasks_succeeded) (float.of_int m.tasks_processed))
          float_100

  unfoldable pub calculate_avg_confidence : WorkerMetrics → Float64
  calculate_avg_confidence m =
      if eqb_ℤ m.confidence_count (pos 0)
      then float_zero
      else float.div
          (float.div (float.of_int (pos m.confidence_sum)) (float.of_int m.confidence_count))
          float_1000

  unfoldable pub get_stats : WorkerMetrics → ResearcherStats
  unfolding calculate_success_rate calculate_avg_confidence
  get_stats m = record {
    worker_id = m.worker_id;
    tasks_processed = m.tasks_processed;
    tasks_succeeded = m.tasks_succeeded;
    tasks_failed = m.tasks_failed;
    avg_process_time =
        if ltb_ℤ (pos 0) m.tasks_processed
        then div_ℤ m.total_process_time m.tasks_processed
        else pos 0;
    last_task_time = if ltb_ℤ (pos 0) m.last_task_time then some m.last_task_time else none;
    avg_confidence = calculate_avg_confidence m;
    success_rate = calculate_success_rate m;
    tool_invocations = m.tool_invocations;
  }
