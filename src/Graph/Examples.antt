-- ===== src/Graph/Examples.antt =====
-- The workflow on concrete queries.
use open_research_agent.Base.{
  ℕ, suc, ◌+◌, ◌*◌, ◌≡◌, refl, List, [], pos, int64, arith, String, float_0_3, float_0_7, codes,
  Instant, zero_time, some, none, true, ◌∷◌, map, FloatOps, ltb, pos_part, false,
}
use open_research_agent.Base.GoMap.{lookup, insert}
use open_research_agent.Observability.{
  no_observations, StructuredLogger, noop_tracer, Telemetry, new_metrics, new_structured_logger,
}
use open_research_agent.Graph.Telemetry.{observed_execute}
use open_research_agent.Graph.Transparency.{IsTransparent, observed_execute-IsTransparent}
use open_research_agent.Graph.Arrivals.{
  Arrival, result_arrived, error_arrived, context_done, loop_panicked, process_worker_results,
  process_worker_results-EndsLoop,
}
use open_research_agent.Distribute.{assigned, assignment}
use open_research_agent.Supervisor.{new_supervisor}
use open_research_agent.Supervisor.Rebalance.{no_switch}
use open_research_agent.Graph.Rounds.{planned_task}
use open_research_agent.Graph.Pooled.{Round, PooledRun}
use open_research_agent.Domain.{ResearchRequest, ResearchReport, Message, ChatOptions}
use open_research_agent.State.{
  new_graph_state, set_llm_client, set_tools, set_phase, add_message, add_task, update_task,
  task_or_fresh, add_result, increment_iteration, get_task_stats, count_tasks, count_status,
}
use open_research_agent.State.Pending.{get_next_pending_task, scan_next}
use open_research_agent.Worker.{ChatOutcome, ChatResponse, answered}
use open_research_agent.Graph
use open_research_agent.Graph.{
  ResearchGraph, Executed, reported, stopped, execution_panicked, options, clarify_messages,
  run_nodes, execute, Config, new_research_graph,
}
use open_research_agent.Graph.Assembly.{
  FullGraph, full_built, new_research_graph_with_telemetry, add_telemetry, add_pool,
}
use open_research_agent.Graph.Runs.{EndsRun, run_nodes-EndsRun}
use open_research_agent.Graph.Queries.{found_texts, findings_ignore_query}

abbrev response : ChatResponse
response = record {
  content = codes "CLEAR";
  tool_calls = [];
  usage = record { prompt_tokens = pos 1; completion_tokens = pos 1; total_tokens = pos 2 };
  finish_reason = "stop";
}

-- A client that answers every call in the same way.
abbrev calm : List Message → ChatOptions → ChatOutcome
calm messages opts = answered response

abbrev planned : Instant → String
planned now = "task_5"

abbrev result_of : String → Instant → String
result_of task now = task

abbrev report_of : String → String
report_of id = id

abbrev ticks : ℕ → ℕ → Instant
ticks node n = suc (10 * node + n)

abbrev graph : ResearchGraph
graph = record {
  config = record {
    research_config = record {
      max_concurrency = pos 5;
      max_iterations = pos 6;
      max_depth = pos 3;
      compression_ratio = float_0_3;
      timeout = "5m";
    };
    llm = record { model = "llama3.2"; temperature = float_0_7; max_tokens = pos 4096 };
  };
  llm_client = 0;
  tools = 1;
}

abbrev request_of : String → ResearchRequest
request_of query = record {
  id = "req_1";
  query = codes query;
  context = [];
  max_depth = pos 3;
  timestamp = 7;
  metadata = [];
}

run_nodes-EndsRun_example :
    EndsRun
      (λ _. calm)
      (calm (clarify_messages (request_of "history of computing")) (options float_0_3 500))
      (request_of "history of computing")
      6
      "task_5"
      (run_nodes (λ _. calm) planned result_of ticks graph (request_of "history of computing") 0)
run_nodes-EndsRun_example =
    run_nodes-EndsRun (λ _. calm) planned result_of ticks graph (request_of "history of computing")
      0

abbrev report_in : Executed → ResearchReport
report_in (reported report) = report
report_in _ = record {
  id = "";
  request_id = "";
  executive = "";
  sections = [];
  findings = [];
  sources = [];
  generated_at = zero_time;
  tokens_used = pos 0;
  metadata = [];
}

abbrev execution : String → Executed
execution query = execute (λ _. calm) planned result_of report_of ticks graph (request_of query) 0

both_reported :
    (execution "history of computing" ≡ reported (report_in (execution "history of computing")))
    × (execution "how bees fly" ≡ reported (report_in (execution "how bees fly")))
unfolding execute run_nodes Graph.conclude Graph.initial_state Graph.start_node Graph.clarify_node
    Graph.clarify_with Graph.plan_and_research Graph.planning_node Graph.plan_with Graph.add_tasks
    Graph.parse_tasks_from_response Graph.research_loop Graph.supervisor_node Graph.researcher_node
    Graph.research_next Graph.research_with Graph.make_result Graph.compression_node
    Graph.report_generation_node Graph.end_node new_graph_state set_llm_client set_tools set_phase
    add_message add_task update_task task_or_fresh add_result increment_iteration get_task_stats
    count_tasks count_status get_next_pending_task scan_next lookup insert int64
both_reported = (refl, refl)

findings_ignore_query_example :
    found_texts (report_in (execution "history of computing"))
    ≡ found_texts (report_in (execution "how bees fly"))
findings_ignore_query_example =
    findings_ignore_query calm planned result_of report_of ticks ticks graph
      (request_of "history of computing") (request_of "how bees fly") 0 0
      (report_in (execution "history of computing")) (report_in (execution "how bees fly"))
      (omega arith) (omega arith) both_reported.0 both_reported.1

-- A workflow for one worker, with telemetry.
abbrev sequential : Config
sequential = record graph.config {
  research_config = record graph.config.research_config { max_concurrency = pos 1 };
}

abbrev watched : Telemetry
watched = record {
  config = record {
    service_name = "ora";
    service_version = "1";
    environment = "test";
    otlp_endpoint = "";
    prometheus_port = pos 0;
    sampling_rate = 0;
    enable_tracing = false;
    enable_metrics = true;
    enable_logging = true;
  };
  tracer = noop_tracer;
  meter = some (λ kind name. none);
  shutdown_funcs = [];
}

abbrev watched_graph : FullGraph
watched_graph = record {
  graph = record { config = sequential; llm_client = 0; tools = 1 };
  telemetry = some watched;
  metrics = some no_observations.metrics;
  logger = some (new_structured_logger [] "research_graph");
  worker_pool = none;
  supervisor = none;
}

watched_graph_built :
    new_research_graph_with_telemetry [] (some sequential) (some 0) (some 1) (some watched)
    ≡ full_built watched_graph
unfolding new_research_graph_with_telemetry new_research_graph add_telemetry add_pool new_metrics
watched_graph_built = refl

observed_execute-IsTransparent_example :
    (watched_graph.worker_pool ≡ none)
    × IsTransparent 0
        (pos 0)
        (pos 0)
        (execute
          (λ _. calm)
          planned
          result_of
          report_of
          ticks
          watched_graph.graph
          (request_of "history of computing")
          0)
        (observed_execute
          (λ k. 0)
          (λ _. calm)
          planned
          result_of
          "llama3.2"
          report_of
          ticks
          watched_graph.graph
          (request_of "history of computing")
          0
          no_observations)
observed_execute-IsTransparent_example =
    observed_execute-IsTransparent (λ k. 0) (λ _. calm) planned result_of "llama3.2" report_of ticks
      [] watched sequential 0 1 watched_graph (request_of "history of computing") 0 0 (pos 0)
      (pos 0) no_observations watched_graph_built refl (omega arith, omega arith)
      (omega arith, omega arith)
      (record { spans_open = refl; requests_active = refl; tasks_active = refl })

abbrev logger : StructuredLogger
logger = record { component = "research_graph"; output = [] }

abbrev taken : List Arrival
taken =
    result_arrived none ∷ error_arrived (some (codes "max retries exceeded")) ∷ context_done ∷ []

process_worker_results-EndsLoop_example :
    process_worker_results (λ entry. none) [] none true taken (some logger) ≡ loop_panicked
process_worker_results-EndsLoop_example =
    process_worker_results-EndsLoop (λ entry. none) [] none taken logger

-- The round of a distributor that knows one worker.
abbrev round : Round
round = record {
  at = 9;
  prioritized = λ tasks. tasks;
  distribution = λ strategy tasks. assigned (map (λ t. assignment 9 t "worker_0" 0) tasks);
  ranges = record { loads_for_extremes = []; loads_for_workers = []; history = [] };
  worker_count = 1;
}

abbrev whole : FloatOps
whole = record {
  add = λ a b. a + b;
  sub = λ a b. a;
  mul = λ a b. a * b;
  div = λ a b. a;
  lt = ltb;
  of_int = pos_part;
}

abbrev waiting : PooledRun
waiting = record {
  state = record (Graph.initial_state 5 graph (request_of "history of computing") 0) {
    tasks = ("task_5", planned_task "task_5" 5) ∷ [];
  };
  supervisor = new_supervisor;
  strategy = no_switch;
  submitted = [];
}
