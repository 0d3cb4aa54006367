-- ===== src/Program.antt =====
-- The program, cmd/ora/main.go: a configuration becomes a client of the language model and a workflow
-- graph, which researches one query. The text of an error, `strings.TrimSpace` and the formats of
-- identifiers are parameters; `transport n` is the network at the n-th call of the model.
pub mod Reports
pub mod Main
pub mod Exits
mod Examples
use open_research_agent.Base.{
  ℕ, List, [], Bool, true, false, pos, some, none, Option, String, if◌then◌else◌, ◌==◌, length,
  FloatOps, Instant,
}
use open_research_agent.Domain.{Bytes, Message, ChatOptions, ResearchRequest, ResearchReport}
use open_research_agent.Worker.{ChatResponse, ChatOutcome, answered, chat_failed}
use open_research_agent.Config.{Config}
use open_research_agent.Llm.{
  OllamaClient, OllamaOptions, Transport, Reply, reply, no_reply, LlmError, new_ollama_client, chat,
  check_health,
}
use open_research_agent.Tools.{BasicRegistry, new_basic_registry, register, think_tool}
use open_research_agent.Graph
use open_research_agent.Graph.{
  ResearchGraph, SetupError, Setup, built, not_built, new_research_graph, GraphError, Executed,
  reported, stopped, execution_panicked, execute,
}

-- The options that `run` passes on: those of the configuration, without its timeout.
unfoldable pub ollama_options : Config → OllamaOptions
ollama_options cfg = record {
  temperature = cfg.ollama.temperature;
  max_tokens = cfg.ollama.max_tokens;
  top_p = cfg.ollama.top_p;
  top_k = cfg.ollama.top_k;
  system_prompt = "";
  timeout = 0;
}

unfoldable pub workflow_config : Config → Graph.Config
workflow_config cfg = record {
  research_config = record {
    max_concurrency = cfg.research.max_concurrency;
    max_iterations = cfg.research.max_iterations;
    max_depth = cfg.research.max_depth;
    compression_ratio = cfg.research.compression_ratio;
    timeout = cfg.research.timeout;
  };
  llm = record {
    model = cfg.ollama.model;
    temperature = cfg.ollama.temperature;
    max_tokens = cfg.ollama.max_tokens;
  };
}

-- `createToolRegistry`.
unfoldable pub create_tool_registry : BasicRegistry
create_tool_registry = (register (some think_tool) new_basic_registry).0

pub data RunError : Type 0 where
  unhealthy : LlmError → RunError
  graph_not_built : SetupError → RunError
  api_not_implemented no_input no_query : RunError
  research_failed : GraphError → RunError

pub data Finished : Type 0 where
  printed : ResearchReport → Finished
  run_failed : RunError → Finished
  run_panicked : Finished

-- What the formats and the libraries give.
pub record Formats : Type 0 where
  pub base_url_of : String → Bytes
  pub error_text : LlmError → String
  pub trim_space : Bytes → Bytes
  pub request_id : Instant → String
  pub planned_id : Instant → String
  pub result_id : String → Instant → String
  pub report_id : String → String

module _ (float : FloatOps) (fmt : Formats) (transport : ℕ → Transport) where
  abbrev pub outcome_of : Reply ChatResponse → ChatOutcome
  outcome_of (reply response) = answered response
  outcome_of (no_reply err) = chat_failed (fmt.error_text err)

  -- The client of the graph.
  abbrev pub model_of : OllamaClient → ℕ → List Message → ChatOptions → ChatOutcome
  model_of c n messages opts = outcome_of (chat float (transport n) c messages opts)

  abbrev pub request_of : Instant → Instant → Bytes → ResearchRequest
  request_of named now query = record {
    id = fmt.request_id named;
    query = query;
    context = [];
    max_depth = pos 3;
    timestamp = now;
    metadata = [];
  }

  abbrev pub finished_as : Executed → Finished
  finished_as (reported report) = printed report
  finished_as (stopped err) = run_failed (research_failed err)
  finished_as execution_panicked = run_panicked

  -- `runCLI` with a query; `stdin` is the line that is read when it is empty.
  unfoldable pub research_query :
      (ℕ → ℕ → Instant) → OllamaClient → ResearchGraph → Bytes → Finished
  research_query clock c graph query =
      let outcome = finished_as (
        execute (model_of c) fmt.planned_id fmt.result_id fmt.report_id clock graph
          (request_of (clock 0 8) (clock 0 9) query) 0) in
      if length query == 0 then run_failed no_query else outcome

  unfoldable pub run_cli :
      (ℕ → ℕ → Instant) → OllamaClient → ResearchGraph → Option Bytes → Bytes → Finished
  unfolding research_query
  run_cli clock c graph none query =
      if length query == 0 then run_failed no_input else research_query clock c graph query
  run_cli clock c graph (some line) query =
      research_query clock c graph (if length query == 0 then fmt.trim_space line else query)

  abbrev pub run_mode :
      (ℕ → ℕ → Instant) → OllamaClient → Bool → Option Bytes → Bytes → Setup → Finished
  run_mode clock c api_mode stdin query (not_built err) = run_failed (graph_not_built err)
  run_mode clock c true stdin query (built graph) = run_failed api_not_implemented
  run_mode clock c false stdin query (built graph) = run_cli clock c graph stdin query

  abbrev pub if_healthy : Reply (Unit {0}) → Finished → Finished
  if_healthy (reply _) next = next
  if_healthy (no_reply err) next = run_failed (unhealthy err)

  -- `run`; the client and the registry are known to the graph by a number.
  unfoldable pub run_program :
      (ℕ → ℕ → Instant) → Transport → Config → Bool → Option Bytes → Bytes → Finished
  unfolding run_cli workflow_config ollama_options new_research_graph
  run_program clock first cfg api_mode stdin query =
      let c =
        new_ollama_client float (fmt.base_url_of cfg.ollama.base_url) cfg.ollama.model
          (some (ollama_options cfg)) in
      if_healthy (check_health float first c) (
        run_mode clock c api_mode stdin query
          (new_research_graph (some (workflow_config cfg)) (some 0) (some 1)))
