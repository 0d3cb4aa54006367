-- ===== src/Config/Examples.antt =====
-- The configuration on concrete files.
use open_research_agent.Base.{
  zero, ◌≡◌, refl, ◌↔◌, [], ◌∷◌, pos, some, none, Option, String, str_eq, if◌then◌else◌, second,
}
use open_research_agent.Domain.{Bytes}
use open_research_agent.Config.{Config, default_config}
use open_research_agent.Config.Loading.{
  Environment, contents, loaded, load, load_parsed, validated, validate, settled, apply_defaults,
  override_from_env, load_or_default, save,
}
use open_research_agent.Config.Validity.{IsLoaded, load_iff}
use open_research_agent.Config.Saving.{load-save_unchanged, load_or_default-without_timeout}

-- An environment that sets the model, and a library that reads the default configuration, or one
-- without a timeout from a text that starts with the byte 0.
abbrev timeless : Config
timeless = record default_config { research = record default_config.research { timeout = "" } }

abbrev read_yaml : Bytes → Option Config
read_yaml (zero ∷ text) = some timeless
read_yaml _ = some default_config

abbrev setting : String → String
setting name = if str_eq name "OLLAMA_MODEL" then "llama3.3" else ""

abbrev env : Environment
env = record {
  getenv = setting;
  scan_int = λ text. none;
  parse_duration = λ text. if str_eq text "" then none else some (pos second);
  to_lower = λ text. text;
  unmarshal = read_yaml;
  marshal = λ c. some [];
}

abbrev config : Config
config = record default_config { ollama = record default_config.ollama { model = "llama3.3" } }

load_example : load env (contents (1 ∷ [])) ≡ loaded config
unfolding load load_parsed validated validate settled apply_defaults override_from_env
    default_config
load_example = refl

load_iff_example :
    (load env (contents (1 ∷ [])) ≡ loaded config) ↔ IsLoaded env (contents (1 ∷ [])) config
load_iff_example = load_iff env (contents (1 ∷ [])) config

-- A library that reads every text as the configuration that was saved.
abbrev faithful : Environment
faithful = record env { unmarshal = λ text. some config }

faithful_loads : load faithful (contents []) ≡ loaded config
unfolding load load_parsed validated validate settled apply_defaults override_from_env
    default_config
faithful_loads = refl

load-save_unchanged_example : load faithful (save faithful config (contents [])) ≡ loaded config
load-save_unchanged_example =
    load-save_unchanged faithful (contents []) config [] faithful_loads refl refl

load_or_default-without_timeout_example : load_or_default env (contents (0 ∷ [])) ≡ default_config
load_or_default-without_timeout_example =
    load_or_default-without_timeout env (0 ∷ []) timeless refl refl refl
