-- ===== src/Program/Examples.antt =====
-- The program on a concrete query.
use open_research_agent.Base.{
  ℕ, suc, ◌+◌, ◌-◌, ◌*◌, ◌/◌, ◌≡◌, refl, [], true, false, pos, pos_part, int64, arith, some, none,
  ltb, codes, FloatOps, Instant, zero_time, second,
}
use open_research_agent.Base.GoMap.{lookup, insert}
use open_research_agent.Llm.{not_sent, Transport, coded, responded, OllamaResponse}
use open_research_agent.Observability.{no_observations}
use open_research_agent.Program.Main.{run_main}
use open_research_agent.Program.Exits.{Exits, run_main-Exits}
use open_research_agent.Domain.{ResearchReport}
use open_research_agent.State.{
  new_graph_state, set_llm_client, set_tools, set_phase, add_message, add_task, update_task,
  task_or_fresh, add_result, increment_iteration, get_task_stats, count_tasks, count_status,
}
use open_research_agent.State.Pending.{get_next_pending_task, scan_next}
use open_research_agent.Config.{default_config}
use open_research_agent.Config.Loading.{
  Environment, contents, loaded, load, load_parsed, validated, validate, settled, apply_defaults,
  override_from_env,
}
use open_research_agent.Llm
use open_research_agent.Graph
use open_research_agent.Graph.{run_nodes, execute, new_research_graph}
use open_research_agent.Graph.Rounds.{research_answer}
use open_research_agent.Program.{
  Formats, Finished, printed, run_failed, run_panicked, run_program, research_query, run_cli,
  workflow_config, ollama_options, model_of,
}
use open_research_agent.Program.Reports.{HasOneFinding, client_of, run_program-HasOneFinding}

abbrev whole : FloatOps
whole = record {
  add = λ a b. a + b;
  sub = λ a b. a - b;
  mul = λ a b. a * b;
  div = λ a b. a / b;
  lt = ltb;
  of_int = pos_part;
}

abbrev formats : Formats
formats = record {
  base_url_of = codes;
  error_text = λ err. "error";
  trim_space = λ text. text;
  request_id = λ now. "req_1";
  planned_id = λ now. "task_1";
  result_id = λ task now. task;
  report_id = λ id. id;
}

abbrev env : Environment
env = record {
  getenv = λ name. "";
  scan_int = λ text. none;
  parse_duration = λ text. some (pos second);
  to_lower = λ text. text;
  unmarshal = λ text. some default_config;
  marshal = λ c. none;
}

abbrev answer : OllamaResponse
answer = record {
  message = record { role = "assistant"; content = codes "Go is a language" };
  finished = true;
  total_duration = pos 9;
  load_duration = pos 1;
  prompt_eval_count = pos 1;
  eval_count = pos 1;
  eval_duration = pos 5;
}

abbrev service : Transport
service = record {
  marshal = λ body. coded [];
  new_request = λ url. none;
  post = λ url body. responded 200 [];
  get = λ url. responded 200 [];
  decode_response = λ body. coded answer;
  decode_chunks = λ body. [];
  decode_embedding = λ body. coded [];
  decode_models = λ body. coded [];
}

abbrev ticks : ℕ → ℕ → Instant
ticks node n = suc (10 * node + n)

abbrev no_report : ResearchReport
no_report = record {
  id = "";
  request_id = "";
  executive = "";
  sections = [];
  findings = [];
  sources = [];
  generated_at = zero_time;
  tokens_used = pos 0;
  metadata = [];
}

abbrev printed_by : Finished → ResearchReport
printed_by (printed report) = report
printed_by (run_failed err) = no_report
printed_by run_panicked = no_report

abbrev ran : Finished
ran =
    run_program whole formats (λ n. service) ticks service default_config false none
      (codes "history of computing")

default_loads : load env (contents []) ≡ loaded default_config
unfolding load load_parsed validated validate settled apply_defaults override_from_env
    default_config
default_loads = refl

ran_printed : ran ≡ printed (printed_by ran)
unfolding run_program run_cli research_query workflow_config ollama_options default_config
    Llm.check_health Llm.chat Llm.exchange Llm.build_request Llm.build_options Llm.convert_messages
    Llm.new_ollama_client Llm.determine_finish_reason new_research_graph execute run_nodes
    Graph.conclude Graph.initial_state Graph.start_node Graph.clarify_node Graph.clarify_with
    Graph.plan_and_research Graph.planning_node Graph.plan_with Graph.add_tasks
    Graph.parse_tasks_from_response Graph.research_loop Graph.supervisor_node Graph.researcher_node
    Graph.research_next Graph.research_with Graph.make_result Graph.compression_node
    Graph.report_generation_node Graph.end_node new_graph_state set_llm_client set_tools set_phase
    add_message add_task update_task task_or_fresh add_result increment_iteration get_task_stats
    count_tasks count_status get_next_pending_task scan_next lookup insert int64
ran_printed = refl

run_program-HasOneFinding_example :
    HasOneFinding
      (research_answer (
        model_of whole formats
          (λ n. service)
          (client_of whole formats (λ n. service) default_config)))
      (printed_by ran)
run_program-HasOneFinding_example =
    run_program-HasOneFinding whole formats (λ n. service) env (contents []) default_config ticks
      service none (codes "history of computing") (printed_by ran) default_loads (omega arith)
      ran_printed

-- The model cannot be reached.
abbrev unreachable : Transport
unreachable = record service { get = λ url. not_sent "connection refused" }

run_main-Exits_example :
    Exits 0
      (run_program whole formats
        (λ n. service)
        ticks
        unreachable
        default_config
        false
        none
        (codes "history of computing"))
      (run_main
        (λ k. 0)
        (λ wrapped err. [])
        true
        whole
        formats
        (λ n. service)
        ticks
        unreachable
        "dev"
        default_config
        false
        none
        (codes "history of computing")
        no_observations)
run_main-Exits_example =
    run_main-Exits (λ k. 0) (λ wrapped err. []) true whole formats (λ n. service) ticks unreachable
      "dev" default_config false none (codes "history of computing") 0 no_observations refl
