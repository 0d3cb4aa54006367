-- ===== src/Researcher/Examples.antt =====
-- The researcher pool on concrete tasks.
use open_research_agent.Base.{
  ℕ, zero, suc, ◌+◌, ◌-◌, ◌*◌, ◌/◌, ◌≡◌, refl, [], ◌∷◌, true, ℤ, pos, pos_part, int64, int32, arith,
  none, ltb, codes, Float64, FloatOps, Instant, second,
}
use open_research_agent.Base.GoMap.{lookup, insert}
use open_research_agent.Domain.{ResearchTask, ResearchResult, pending}
use open_research_agent.Breaker.{
  new_circuit_breaker, can_execute, can_execute_in, record_failure, failure_in,
}
use open_research_agent.Pool.{WorkerPoolConfig, with_defaults}
use open_research_agent.Researcher.Tracker.{register_task_start}
use open_research_agent.Researcher.Metrics.{new_worker_metrics, record_task_completion}
use open_research_agent.Researcher.Health.{
  new_worker_health_manager, may_execute, ask_healthy, ask_breaker, passes_checks, health_failure,
  track_resources, perform_health_check,
}
use open_research_agent.Researcher.Executor.{Research, found, not_found}
use open_research_agent.Researcher.Processor.{
  TaskProcessor, Visit, process_task, execute_with_retry, retry, send_error,
}
use open_research_agent.Researcher.Processor
use open_research_agent.Researcher.Dead.{
  Event, visited, checked, asked_healthy, happen_all, happen, has_given_up, IsDeadAfter,
  happen_all-IsDeadAfter,
}
use open_research_agent.Researcher.Pool.{
  ResearcherPool, new_researcher_pool, Outcome, moved, refused, panicked, Action, starts, stops,
  submits, sends, gives_up, abandons, receives, delivers, forwards, passes_on, consumes, advance,
}
use open_research_agent.Researcher.Pool
use open_research_agent.Researcher.Leaks.{Leaks}
use open_research_agent.Researcher.Active.{Reach, at_first, then_by, failed_tasks_leak}

abbrev whole : FloatOps
whole = record {
  add = λ a b. a + b;
  sub = λ a b. a - b;
  mul = λ a b. a * b;
  div = λ a b. a / b;
  lt = ltb;
  of_int = pos_part;
}

abbrev seconds_of : Instant → ℤ
seconds_of now = pos (now / second)

abbrev as_is : Float64 → ℕ
as_is x = x

abbrev no_answer : ℕ → Research
no_answer n = not_found "no answer"

abbrev failing : ℕ → Event
failing n = visited (record {
  started = n * second;
  ended = n * second + 1;
  alloc_before = 1;
  alloc_after = 2;
  research = no_answer;
  result_taken = true;
  error_taken = true;
})

abbrev fresh : TaskProcessor
fresh = record {
  health = new_worker_health_manager "r" second;
  metrics = new_worker_metrics "r";
  results = [];
  errors = [];
}

-- Five failures open the breaker, and the sixth comes when it lets a task through again.
abbrev troubled : TaskProcessor
troubled =
    happen_all whole seconds_of as_is
      (failing 1
        ∷ failing 2
        ∷ failing 3
        ∷ failing 4
        ∷ failing 5
        ∷ checked (60 * second) 3
        ∷ failing 70
        ∷ [])
      fresh

troubled_given_up : has_given_up troubled.health ≡ true
unfolding happen_all happen process_task may_execute ask_healthy ask_breaker passes_checks
    health_failure track_resources perform_health_check execute_with_retry retry send_error
    Processor.conclude record_task_completion new_worker_health_manager new_circuit_breaker
    can_execute can_execute_in record_failure failure_in int64 int32
troubled_given_up = refl

happen_all-IsDeadAfter_example : IsDeadAfter whole seconds_of as_is troubled (
    happen_all whole seconds_of as_is
      (checked (80 * second) 3 ∷ failing 90 ∷ asked_healthy (91 * second) ∷ [])
      troubled)
happen_all-IsDeadAfter_example =
    happen_all-IsDeadAfter whole seconds_of as_is
      (checked (80 * second) 3 ∷ failing 90 ∷ asked_healthy (91 * second) ∷ []) troubled
      troubled_given_up

abbrev answer : ResearchResult
answer = record {
  id = "result_1";
  task_id = "t";
  source = "research_executor";
  content = codes "go is a language";
  summary = codes "go";
  confidence = 0x3fe0000000000000;
  metadata = [];
  timestamp = 3;
}

-- The second attempt succeeds.
abbrev second_time : ℕ → Research
second_time zero = not_found "no answer"
second_time (suc n) = found answer

abbrev small : WorkerPoolConfig
small = record { max_workers = pos 1; queue_size = pos 2; worker_timeout = pos 0 }

abbrev topic : ResearchTask
topic = record {
  id = "t";
  topic = "go";
  parent_id = "";
  status = pending;
  priority = pos 1;
  assigned_worker = "";
  results = [];
  created_at = 5;
  completed_at = none;
  metadata = [];
}

abbrev reached : Outcome → ResearcherPool
reached (moved q) = q
reached _ = new_researcher_pool small

abbrev next : Action seconds_of → ResearcherPool → ResearcherPool
next a p = reached (advance seconds_of a p)

-- A pool of which the one task has failed.
abbrev failed_pool : ResearcherPool
failed_pool = next (abandons 0) (
    next (receives 4 "w")
      (next (sends 0) (next (submits topic) (next starts (new_researcher_pool small)))))

failed_reached : Reach seconds_of (new_researcher_pool small) failed_pool
unfolding advance Pool.start Pool.submit Pool.send Pool.receive Pool.abandon register_task_start
    insert lookup int64 with_defaults
failed_reached =
    then_by (abandons 0)
      (then_by (receives 4 "w")
        (then_by (sends 0)
          (then_by (submits topic) (then_by starts at_first (omega arith) tt refl) (omega arith) tt
            refl)
          (omega arith) tt refl)
        (omega arith) refl refl)
      (omega arith) tt refl

failed_tasks_leak_example : Leaks failed_pool
failed_tasks_leak_example = failed_tasks_leak seconds_of small failed_pool failed_reached
