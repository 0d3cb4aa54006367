-- ===== src/Tools/Histories.antt =====
-- What any history of registrations leaves in the registry, pkg/tools/registry.go.
use open_research_agent.Base.{
  ◌≡◌, refl, sym, ap, ◌∙◌, List, [], ◌∷◌, arith, some, none, Option, String, str_eq, eq_iff,
  if◌then◌else◌,
}
use open_research_agent.Base.GoMap.{lookup, lookup-insert}
use open_research_agent.Tools.{Tool, BasicRegistry, new_basic_registry, register, get_tool}

abbrev pub register_all : List (Option Tool) → BasicRegistry → BasicRegistry
register_all [] r = r
register_all (tool ∷ tools) r = register_all tools (register tool r).0

-- The first tool of a name among those offered, if the name is not empty.
abbrev pub first_named : String → List (Option Tool) → Option Tool
first_named name [] = none
first_named name (none ∷ tools) = first_named name tools
first_named name (some tool ∷ tools) =
    let rest = first_named name tools in
    if str_eq tool.name "" then rest else if str_eq tool.name name then some tool else rest

abbrev pub or_else : Option Tool → Option Tool → Option Tool
or_else none other = other
or_else (some tool) other = some tool

or_else-none : (a : Option Tool) → a ≡ or_else a none
or_else-none none = refl
or_else-none (some tool) = refl

get_tool-register :
    (name : String) (offered : Option Tool) (r : BasicRegistry)
    → get_tool name (register offered r).0
      ≡ or_else (get_tool name r) (first_named name (offered ∷ []))
unfolding get_tool register
get_tool-register name none r = or_else-none (get_tool name r)
get_tool-register name (some tool) r =
    ground (arith, eq_iff tool.name name, lookup-insert tool.name name tool r.tools)

or_else_assoc : (a b c : Option Tool) → or_else (or_else a b) c ≡ or_else a (or_else b c)
or_else_assoc none b c = refl
or_else_assoc (some tool) b c = refl

first_named-∷ :
    (name : String) (offered : Option Tool) (tools : List (Option Tool))
    → first_named name (offered ∷ tools)
      ≡ or_else (first_named name (offered ∷ [])) (first_named name tools)
first_named-∷ name none tools = refl
first_named-∷ name (some tool) tools = ground arith

get_tool-register_all-from :
    (name : String) (tools : List (Option Tool)) (r : BasicRegistry)
    → get_tool name (register_all tools r) ≡ or_else (get_tool name r) (first_named name tools)
get_tool-register_all-from name [] r = or_else-none (get_tool name r)
get_tool-register_all-from name (offered ∷ tools) r =
    get_tool-register_all-from name tools (register offered r).0
    ∙ ap (λ t. or_else t (first_named name tools)) (get_tool-register name offered r)
    ∙ or_else_assoc (get_tool name r) (first_named name (offered ∷ [])) (first_named name tools)
    ∙ ap (or_else (get_tool name r)) (sym (first_named-∷ name offered tools))

-- After any history of registrations, `Get` finds under a name the first tool of that name that was
-- offered: a nil tool and one without a name are refused, and so is a second one of the same name.
pub get_tool-register_all :
    (name : String) (tools : List (Option Tool))
    → get_tool name (register_all tools new_basic_registry) ≡ first_named name tools
unfolding get_tool lookup
get_tool-register_all name tools = get_tool-register_all-from name tools new_basic_registry
