-- ===== src/Worker.antt =====
-- A research worker, pkg/workflow/worker.go. The client's answer, the clock and the size of the heap
-- are arguments; readings of the clock in quick succession are one argument. An error stands for its
-- kind, without the identifiers in its text.
pub mod Summary
pub mod Tasks
pub mod Health
mod Examples
use open_research_agent.Base.{
  ℕ, zero, suc, ◌*◌, List, [], ◌∷◌, ◌++◌, Bool, true, false, not, ◌&&◌, ◌||◌, ℤ, pos, ◌+ℤ◌, ◌-ℤ◌,
  ltb_ℤ, int64, some, none, since, Option, String, str_eq, if◌then◌else◌, ltb, leb, ◌==◌, length,
  get_elem?, any_of, codes, Float64, FloatOps, float_one, float_two, Instant, zero_time, second,
  float_0_1, float_0_2, float_0_5,
}
use open_research_agent.Domain.{
  ResearchTask, ResearchResult, Message, ToolCall, Bytes, Dynamic, integer, text, completed,
}
use open_research_agent.Breaker.{
  CircuitBreaker, CircuitBreakerState, open_state, new_circuit_breaker, can_execute, record_success,
  record_failure,
}
use open_research_agent.State.{GraphState, update_task, add_result}
use open_research_agent.Monitor.{div_ℤ}
use open_research_agent.Pool.{WorkerTask, TaskOutcome, processed, processing_failed}

pub record TokenUsage : Type 0 where
  pub prompt_tokens : ℤ
  pub completion_tokens : ℤ
  pub total_tokens : ℤ

pub record ChatResponse : Type 0 where
  pub content : Bytes
  pub tool_calls : List ToolCall
  pub usage : TokenUsage
  pub finish_reason : String

-- What a call of the language model's client does: it answers, it returns an error, or it panics.
pub data ChatOutcome : Type 0 where
  answered : ChatResponse → ChatOutcome
  chat_failed : String → ChatOutcome
  chat_panicked : ChatOutcome

pub record Worker : Type 0 where
  pub id : String
  pub has_tools : Bool
  pub has_telemetry : Bool
  pub tasks_processed : ℤ  -- int64
  pub total_time : ℤ  -- time.Duration
  pub last_task_time : Instant
  pub memory_usage : ℤ  -- int64
  pub last_health_check : Instant
  pub is_healthy : Bool
  pub breaker : CircuitBreaker

unfoldable pub new_worker : String → Bool → Bool → Instant → Worker
unfolding new_circuit_breaker
new_worker id has_tools has_telemetry now = record {
  id = id;
  has_tools = has_tools;
  has_telemetry = has_telemetry;
  tasks_processed = pos 0;
  total_time = pos 0;
  last_task_time = zero_time;
  memory_usage = pos 0;
  last_health_check = now;
  is_healthy = true;
  breaker = new_circuit_breaker;
}

-- `generateSummary`: the scan from the end for a place to break, over the first `n` bytes.
abbrev pub is_break : ℕ → Bool
is_break c = (c == 32) || (c == 46) || (c == 10)

abbrev pub breaks_at : Bytes → ℕ → Bool
breaks_at summary i = elim (get_elem? summary i) [ none ↦ false | some c ↦ is_break c ]

unfoldable pub last_break : Bytes → ℕ → Option ℕ
last_break summary zero = none
last_break summary (suc n) =
    let earlier = last_break summary n in if breaks_at summary n then some n else earlier

abbrev pub first_bytes : ℕ → Bytes → Bytes
first_bytes zero content = []
first_bytes (suc n) [] = []
first_bytes (suc n) (c ∷ content) = c ∷ first_bytes n content

-- A break at 0 is not cut at.
unfoldable pub cut_at : Bytes → Option ℕ → Bytes
cut_at summary none = summary
cut_at summary (some i) = if ltb 0 i then first_bytes i summary else summary

unfoldable pub generate_summary : Bytes → Bytes
unfolding cut_at last_break
generate_summary content =
    if leb (length content) 200
    then content
    else let summary = first_bytes 200 content in
      cut_at summary (last_break summary (length summary)) ++ codes "..."

-- `containsIgnoreCase` looks at the lengths only.
unfoldable pub contains_ignore_case : String → String → Bool
contains_ignore_case s substr = ltb 0 (length (codes s)) && ltb 0 (length (codes substr))

unfoldable pub should_use_tool : String → Bool
unfolding contains_ignore_case
should_use_tool topic =
    any_of (contains_ignore_case topic)
      ("latest" ∷ "current" ∷ "recent" ∷ "news" ∷ "statistics" ∷ "data" ∷ [])

-- The tool's result is a placeholder, and only a worker with telemetry asks for it.
unfoldable pub with_tool_result : Worker → String → Bytes → Bytes
unfolding should_use_tool
with_tool_result w topic content =
    if w.has_tools && should_use_tool topic && w.has_telemetry
    then content
      ++ 10 ∷ 10 ∷ codes "Additional research from tools:"
      ++ 10 ∷ codes "Tool research result placeholder"
    else content

-- What a call of `ProcessTask` meets: the clock as it starts, after the answer and at the end, the
-- heap before and after, and the answer.
pub record Meets : Type 0 where
  pub started : Instant
  pub answered_at : Instant
  pub ended : Instant
  pub alloc_before : ℕ
  pub alloc_after : ℕ
  pub chat : ChatOutcome

-- What `executeResearch` does, with the state after it.
pub data Attempt : Type 0 where
  researched : ResearchResult → Option GraphState → Attempt
  research_failed : String → Attempt
  research_panicked : Attempt

abbrev pub is_open : CircuitBreakerState → Bool
is_open open_state = true
is_open _ = false

-- `performHealthCheck`.
unfoldable pub perform_health_check : Instant → Worker → Worker
perform_health_check now w =
    let memory_ok = not (ltb_ℤ (pos (50 * 1024 * 1024)) w.memory_usage) in
    record w { last_health_check = now; is_healthy = not (is_open w.breaker.state) && memory_ok }

-- `IsHealthy`: the flag, and whether a check is started on another goroutine.
unfoldable pub ask_health : Instant → Worker → Bool × Bool
ask_health now w = (w.is_healthy, ltb (30 * second) (since now w.last_health_check))

unfoldable pub track_memory : ℕ → Worker → Worker
track_memory alloc w = record w { memory_usage = int64 (pos alloc) }

abbrev pub note_outcome : Meets → Worker → Worker
note_outcome e w = record w {
  tasks_processed = int64 (w.tasks_processed +ℤ pos 1);
  total_time = int64 (w.total_time +ℤ (pos e.ended -ℤ pos e.started));
  last_task_time = e.ended;
}

module _ (float : FloatOps) (result_id : String → String → Instant → String)
    (source_of : String → String) where
  unfoldable pub calculate_confidence : ChatResponse → Float64
  calculate_confidence response =
      let by_length =
        if ltb 500 (length response.content)
        then float.add float_0_5 float_0_2
        else if ltb 200 (length response.content)
        then float.add float_0_5 float_0_1
        else float_0_5 in
      let by_reason =
        if str_eq response.finish_reason "stop" || str_eq response.finish_reason "complete"
        then float.add by_length float_0_2
        else by_length in
      if float.lt float_one by_reason then float_one else by_reason

  unfoldable pub make_result : Worker → WorkerTask → Instant → ChatResponse → ResearchResult
  unfolding generate_summary calculate_confidence with_tool_result
  make_result w task now answer =
      let content = with_tool_result w task.task.topic answer.content in
      record {
        id = result_id w.id task.task.id now;
        task_id = task.task.id;
        source = source_of w.id;
        content = content;
        summary = generate_summary content;
        confidence = calculate_confidence (record answer { content = content });
        metadata =
            ("worker_id", text w.id)
            ∷ ("prompt_tokens", integer answer.usage.prompt_tokens)
            ∷ ("completion_tokens", integer answer.usage.completion_tokens)
            ∷ ("total_tokens", integer answer.usage.total_tokens)
            ∷ ("retries", integer task.retries)
            ∷ [];
        timestamp = now;
      }

  -- The function that `executeResearch` gives to `UpdateTask`.
  abbrev pub complete_with : Instant → ResearchResult → ResearchTask → ResearchTask
  complete_with now result t = record t {
    status = completed;
    results = t.results ++ result ∷ [];
    completed_at = some now;
  }

  unfoldable pub store_result :
      Instant → String → ResearchResult → Option GraphState → Option GraphState
  store_result now task_id result none = none
  store_result now task_id result (some s) =
      some (add_result now result (update_task now task_id (complete_with now result) s))

  unfoldable pub execute_research :
      Worker → WorkerTask → Instant → ChatOutcome → Option GraphState → Attempt
  unfolding make_result store_result
  execute_research w task now (answered answer) s =
      let result = make_result w task now answer in
      researched result (store_result now task.task.id result s)
  execute_research w task now (chat_failed err) s = research_failed err
  execute_research w task now chat_panicked s = research_panicked

  -- The end of `ProcessTask`: the outcome is recorded, and the heap is measured again. A panic skips
  -- the counters, and the recovered call returns no result and no error.
  unfoldable pub conclude :
      Meets → Worker → Option GraphState → Attempt → Worker × Option GraphState × TaskOutcome
  conclude e w s (researched result s') =
      let w' = record (note_outcome e w) { breaker = record_success w.breaker } in
      (track_memory e.alloc_after w', s', processed (some result))
  conclude e w s (research_failed err) =
      let w' = record (note_outcome e w) { breaker = (record_failure e.ended w.breaker).0 } in
      (track_memory e.alloc_after w', s, processing_failed err)
  conclude e w s research_panicked =
      let w' = record w { breaker = (record_failure e.ended w.breaker).0 } in
      (track_memory e.alloc_after w', s, processed none)

  unfoldable pub process_task :
      Meets → WorkerTask → Worker → Option GraphState → Worker × Option GraphState × TaskOutcome
  unfolding execute_research conclude track_memory
  process_task e task w s =
      let (breaker', allowed) = can_execute e.started w.breaker in
      let admitted = record w { breaker = breaker' } in
      if not allowed
      then (admitted, s, processing_failed "circuit breaker is open")
      else if not w.is_healthy
      then (admitted, s, processing_failed "worker is unhealthy")
      else let tracked = track_memory e.alloc_before admitted in
        conclude e tracked s (execute_research tracked task e.answered_at e.chat s)

pub record WorkerStats : Type 0 where
  pub id : String
  pub tasks_processed : ℤ
  pub average_time : ℤ
  pub last_task_time : Instant
  pub is_healthy : Bool
  pub memory_usage : ℤ
  pub circuit_state : CircuitBreakerState

unfoldable pub get_stats : Worker → WorkerStats
get_stats w = record {
  id = w.id;
  tasks_processed = w.tasks_processed;
  average_time =
      if ltb_ℤ (pos 0) w.tasks_processed then div_ℤ w.total_time w.tasks_processed else pos 0;
  last_task_time = w.last_task_time;
  is_healthy = w.is_healthy;
  memory_usage = w.memory_usage;
  circuit_state = w.breaker.state;
}
