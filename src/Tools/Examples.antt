-- ===== src/Tools/Examples.antt =====
-- The registry on concrete tools.
use open_research_agent.Base.{ℕ, ◌≡◌, List, [], ◌∷◌, some, none, Option, String}
use open_research_agent.Tools.{
  Tool, returned, other_value, new_basic_registry, get_tool, think_tool,
}
use open_research_agent.Tools.Histories.{register_all, get_tool-register_all}

abbrev tool_of : String → ℕ → Tool
tool_of name value = record { name = name; run_tool = λ args. returned (other_value value) }

abbrev offered : List (Option Tool)
offered =
    some think_tool
    ∷ none
    ∷ some (tool_of "" 1)
    ∷ some (tool_of "search" 2)
    ∷ some (tool_of "search" 3)
    ∷ []

get_tool-register_all_example :
    get_tool "search" (register_all offered new_basic_registry) ≡ some (tool_of "search" 2)
get_tool-register_all_example = get_tool-register_all "search" offered
