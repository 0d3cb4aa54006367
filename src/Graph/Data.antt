-- ===== src/Graph/Data.antt =====
-- The data of the research workflow, pkg/workflow/graph.go, and the messages that it sends.
use open_research_agent.Base.{
  ℕ, List, [], ◌∷◌, ◌++◌, ℤ, pos, some, none, Option, String, codes, Float64, float_zero, zero_time,
}
use open_research_agent.Domain.{ResearchRequest, ResearchTask, Message, ChatOptions, Bytes}
use open_research_agent.State.{GraphState}

pub record ResearchConfig : Type 0 where
  pub max_concurrency : ℤ
  pub max_iterations : ℤ
  pub max_depth : ℤ
  pub compression_ratio : Float64
  pub timeout : String

pub record LlmConfig : Type 0 where
  pub model : String
  pub temperature : Float64
  pub max_tokens : ℤ

pub record Config : Type 0 where
  pub research_config : ResearchConfig
  pub llm : LlmConfig

-- A graph without telemetry, pool and supervisor; the client and the tools are known by a number.
pub record ResearchGraph : Type 0 where
  pub config : Config
  pub llm_client : ℕ
  pub tools : ℕ

pub data SetupError : Type 0 where
  config_required client_required tools_required : SetupError

pub data Setup : Type 0 where
  built : ResearchGraph → Setup
  not_built : SetupError → Setup

unfoldable pub new_research_graph : Option Config → Option ℕ → Option ℕ → Setup
new_research_graph none client tools = not_built config_required
new_research_graph (some cfg) none tools = not_built client_required
new_research_graph (some cfg) (some client) none = not_built tools_required
new_research_graph (some cfg) (some client) (some tools) =
    built (record { config = cfg; llm_client = client; tools = tools })

-- The errors that `Execute` wraps, by the node and the client's error.
pub data GraphError : Type 0 where
  clarification_failed planning_failed : String → GraphError
  research_failed : String → String → GraphError

-- The state, with the number of calls of the client so far.
pub record Run : Type 0 where
  pub state : GraphState
  pub calls : ℕ

pub data NodeResult : Type 0 where
  done : Run → NodeResult
  node_failed : GraphError → Run → NodeResult
  node_panicked : Run → NodeResult

abbrev pub and_then : NodeResult → (Run → NodeResult) → NodeResult
and_then (done r) next = next r
and_then (node_failed err r) next = node_failed err r
and_then (node_panicked r) next = node_panicked r

abbrev pub message : String → Bytes → Message
message role content = record {
  role = role;
  content = content;
  tool_calls = [];
  timestamp = zero_time;
  metadata = [];
}

abbrev pub options : Float64 → ℕ → ChatOptions
options temperature max_tokens = record {
  model = "";
  temperature = temperature;
  max_tokens = pos max_tokens;
  top_p = float_zero;
  top_k = pos 0;
  stop = [];
}

abbrev pub clarify_system_prompt : Bytes
clarify_system_prompt =
    codes
      "You are a research assistant. Analyze the user's query and determine if it needs clarification."
    ++ 10 ∷ codes "If the query is clear and specific enough for research, respond with \"CLEAR\"."
    ++ 10
      ∷ codes
          "If clarification is needed, ask specific questions to better understand the research request."

abbrev pub planning_system_prompt : Bytes
planning_system_prompt =
    codes "You are a research planner. Based on the user's query, create a research plan."
    ++ 10
      ∷ codes "Break down the query into specific research tasks that can be executed in parallel."
    ++ 10 ∷ codes "Each task should focus on a specific aspect of the research question."

unfoldable pub clarify_messages : ResearchRequest → List Message
clarify_messages request =
    message "system" clarify_system_prompt ∷ message "user" request.query ∷ []

unfoldable pub planning_messages : ResearchRequest → List Message
planning_messages request =
    message "system" planning_system_prompt
    ∷ message "user"
        (codes "Research query: " ++ request.query ++ 10 ∷ codes "Context: " ++ request.context)
    ∷ []

unfoldable pub research_messages : ResearchTask → List Message
research_messages task =
    message "system" (
      codes
        "You are a research assistant. Research the following topic and provide comprehensive information.")
    ∷ message "user" (codes task.topic)
    ∷ []
