-- ===== src/Tools.antt =====
-- The tool registry and the thinking tool, pkg/tools/registry.go. A tool is its name and its
-- function; what `fmt.Sprintf` makes of the thought is written out.
pub mod Histories
mod Examples
use open_research_agent.Base.{
  ℕ, List, [], ◌∷◌, ◌++◌, map, some, none, Option, String, str_eq, if◌then◌else◌, is_none, codes,
}
use open_research_agent.Base.GoMap.{lookup, insert}
use open_research_agent.Domain.{Dynamic, text, Bytes}

-- The arguments of a call, and a value that a tool returns.
pub data Argument : Type 0 where
  string_argument : Bytes → Argument
  other_argument : ℕ → Argument

pub data ToolValue : Type 0 where
  thought : Bytes → List String → ToolValue
  other_value : ℕ → ToolValue

pub data ToolResult : Type 0 where
  returned : ToolValue → ToolResult
  failed_with : String → ToolResult

pub record Tool : Type 0 where
  pub name : String
  pub run_tool : List (String × Argument) → ToolResult

pub record BasicRegistry : Type 0 where
  pub tools : List (String × Tool)

abbrev pub new_basic_registry : BasicRegistry
new_basic_registry = record { tools = [] }

pub data RegistryError : Type 0 where
  nil_tool empty_name already_registered tool_not_found : RegistryError

-- `Register`: `none` is a nil tool.
unfoldable pub register : Option Tool → BasicRegistry → BasicRegistry × Option RegistryError
register none r = (r, some nil_tool)
register (some tool) r =
    if str_eq tool.name ""
    then (r, some empty_name)
    else if is_none (lookup tool.name r.tools)
    then (record { tools = insert tool.name tool r.tools }, none)
    else (r, some already_registered)

unfoldable pub get_tool : String → BasicRegistry → Option Tool
get_tool name r = lookup name r.tools

abbrev pub snd_of : String × Tool → Tool
snd_of (name, tool) = tool

-- `List`, in the order in which the map is visited.
unfoldable pub list_tools : BasicRegistry → List Tool
list_tools r = map snd_of r.tools

pub data Execution : Type 0 where
  executed : ToolResult → Execution
  not_executed : RegistryError → Execution

unfoldable pub execute_found : Option Tool → List (String × Argument) → Execution
execute_found none args = not_executed tool_not_found
execute_found (some tool) args = executed (tool.run_tool args)

unfoldable pub execute_tool : String → List (String × Argument) → BasicRegistry → Execution
unfolding execute_found get_tool
execute_tool name args r = execute_found (get_tool name r) args

-- `ThinkTool.Execute`.
unfoldable pub think_about : Option Argument → ToolResult
think_about none = failed_with "query is required"
think_about (some (other_argument _)) = failed_with "query is required"
think_about (some (string_argument query)) = returned (
    thought (codes "Thinking about: " ++ query) (
      "1. Understand the problem" ∷ "2. Break it down into components" ∷ "3. Analyze each component"
      ∷ "4. Synthesize findings" ∷ []))

unfoldable pub think : List (String × Argument) → ToolResult
unfolding think_about
think args = think_about (lookup "query" args)

abbrev pub think_tool : Tool
think_tool = record { name = "think"; run_tool = think }
