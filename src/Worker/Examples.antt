-- ===== src/Worker/Examples.antt =====
-- A worker on concrete tasks.
use open_research_agent.Base.{
  ◌<◌, ℕ, zero, suc, ◌+◌, ◌-◌, ◌*◌, ◌/◌, ◌≤◌, ◌≡◌, refl, ◌⊎◌, List, [], ◌∷◌, ◌++◌, true, pos,
  pos_part, int64, arith, none, All, String, ltb, length, codes, FloatOps, Instant,
}
use open_research_agent.Domain.{ResearchRequest, pending}
use open_research_agent.Breaker
use open_research_agent.Breaker.{new_circuit_breaker}
use open_research_agent.State.{GraphState, new_graph_state}
use open_research_agent.Pool.{WorkerTask}
use open_research_agent.Worker.{
  Worker, Meets, ChatOutcome, ChatResponse, answered, chat_failed, chat_panicked, new_worker,
  process_task, generate_summary,
}
use open_research_agent.Worker
use open_research_agent.Worker.Health.{
  task_comes, check_comes, happen_all, IsStuck, IsFailure, worker_never_recovers,
}
use open_research_agent.Worker.Summary.{generate_summary-IsCut, IsCut}

abbrev whole : FloatOps
whole = record {
  add = λ a b. a + b;
  sub = λ a b. a - b;
  mul = λ a b. a * b;
  div = λ a b. a / b;
  lt = ltb;
  of_int = pos_part;
}

abbrev id_of : String → String → Instant → String
id_of worker task now = task

abbrev same_name : String → String
same_name worker = worker

abbrev job : WorkerTask
job = record {
  task = record {
    id = "t";
    topic = "go";
    parent_id = "";
    status = pending;
    priority = pos 1;
    assigned_worker = "";
    results = [];
    created_at = 5;
    completed_at = none;
    metadata = [];
  };
  start_time = 2;
  retries = pos 0;
}

abbrev answer : ChatResponse
answer = record {
  content = codes "Go is a language.";
  tool_calls = [];
  usage = record { prompt_tokens = pos 3; completion_tokens = pos 4; total_tokens = pos 7 };
  finish_reason = "stop";
}

abbrev meets : ChatOutcome → Meets
meets chat = record {
  started = 3;
  answered_at = 4;
  ended = 5;
  alloc_before = 60 * 1024 * 1024;
  alloc_after = 60 * 1024 * 1024;
  chat = chat;
}

abbrev hand : Worker
hand = new_worker "w" true true 1

abbrev request : ResearchRequest
request = record {
  id = "r";
  query = codes "what is go";
  context = [];
  max_depth = pos 1;
  timestamp = 1;
  metadata = [];
}

abbrev blank : GraphState
blank = new_graph_state request none 0 1

-- A worker whose task left 60 MB on the heap, after a health check.
abbrev stuck : Worker
stuck =
    (happen_all whole id_of same_name
      (task_comes (meets (answered answer)) job ∷ check_comes 9 ∷ []) hand none).0

stuck-IsStuck : IsStuck stuck
unfolding happen_all process_task Worker.perform_health_check new_worker Breaker.record_success
    int64 Breaker.can_execute
stuck-IsStuck = record { unhealthy = refl; too_large = omega arith }

worker_never_recovers_example :
    let (w', s', outcomes) =
      happen_all whole id_of same_name
        (check_comes 90 ∷ task_comes (meets (answered answer)) job ∷ [])
        stuck
        none in
    IsStuck w' × (s' ≡ none) × All IsFailure outcomes
worker_never_recovers_example =
    worker_never_recovers whole id_of same_name
      (check_comes 90 ∷ task_comes (meets (answered answer)) job ∷ []) stuck none stuck-IsStuck

abbrev repeated : ℕ → List ℕ → List ℕ
repeated zero bytes = []
repeated (suc n) bytes = bytes ++ repeated n bytes

abbrev long_text : List ℕ
long_text = repeated 51 (codes "go, ")

generate_summary-IsCut_example :
    ((length long_text ≤ 200) × (generate_summary long_text ≡ long_text))
    ⊎ ((n : ℕ) × (200 < length long_text)
        × (n ≤ 200)
        × (generate_summary long_text ≡ Worker.first_bytes n long_text ++ codes "...")
        × IsCut long_text n)
generate_summary-IsCut_example = generate_summary-IsCut long_text

-- The last blank of the first 200 bytes is cut off.
long_summary : generate_summary long_text ≡ repeated 49 (codes "go, ") ++ codes "go,..."
unfolding generate_summary Worker.last_break Worker.cut_at
long_summary = refl
