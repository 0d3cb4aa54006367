-- ===== src/Config/Validity.antt =====
-- What a configuration that is loaded satisfies.
use open_research_agent.Base.{
  ◌≡◌, refl, subst, ◌≢◌, ◌↔◌, List, [], ◌∷◌, true, false, ℤ, pos, ◌≤ℤ◌, arith, some, none, Option,
  eq_iff, is_none,
}
use open_research_agent.Domain.{Bytes}
use open_research_agent.Config.{Config, default_config}
use open_research_agent.Config.Loading.{
  Environment, FileState, missing, unreadable, contents, InvalidConfig, Loaded, loaded, load_failed,
  validate, validated, settled, load_parsed, load, or_default, load_or_default,
}

-- What the rest of the program can rely on.
pub record IsValid (env : Environment) (c : Config) : Type 0 where
  pub base_url_given : c.ollama.base_url ≢ ""
  pub model_given : c.ollama.model ≢ ""
  pub concurrency_pos : pos 1 ≤ℤ c.research.max_concurrency
  pub iterations_pos : pos 1 ≤ℤ c.research.max_iterations
  pub port_in_range : c.api.enabled ≡ true → (pos 1 ≤ℤ c.api.port) × (c.api.port ≤ℤ pos 65535)
  pub timeout_parses : (d : ℤ) × (env.parse_duration c.research.timeout ≡ some d)

is_none-false : {A : Type 0} (o : Option A) → is_none o ≡ false → (a : A) × (o ≡ some a)
is_none-false none e = cc
is_none-false (some a) e = (a, refl)

validate-IsValid : (env : Environment) (c : Config) → validate env c ≡ none → IsValid env c
unfolding validate
validate-IsValid env c e = record {
  base_url_given = ground (arith, eq_iff c.ollama.base_url "");
  model_given = ground (arith, eq_iff c.ollama.model "");
  concurrency_pos = ground arith;
  iterations_pos = ground arith;
  port_in_range = ground arith;
  timeout_parses = is_none-false (env.parse_duration c.research.timeout) (ground arith);
}

-- Every field that `validate` reads is right, so none of its rules is broken.
IsValid-validate : (env : Environment) (c : Config) → IsValid env c → validate env c ≡ none
unfolding validate
IsValid-validate env c v = ground (
  arith,
  eq_iff c.ollama.base_url "",
  eq_iff c.ollama.model "",
  v.timeout_parses.1,
  v.port_in_range,
)

-- The file was read and parsed, `c` is what the defaults and the environment make of it, and it is
-- valid.
pub record IsLoaded (env : Environment) (file : FileState) (c : Config) : Type 0 where
  pub text : Bytes
  pub parsed : Config
  pub was_read : file ≡ contents text
  pub was_parsed : env.unmarshal text ≡ some parsed
  pub was_settled : settled env parsed ≡ c
  pub valid : IsValid env c

abbrev configs : Loaded → List Config
configs (loaded c) = c ∷ []
configs (load_failed err) = []

validated-loaded :
    (env : Environment) (c d : Config) (o : Option InvalidConfig)
    → validate env c ≡ o
    → validated env c o ≡ loaded d
    → (c ≡ d) × IsValid env c
unfolding validated
validated-loaded env c d none e l = (cc, validate-IsValid env c e)
validated-loaded env c d (some broken) e l = cc

load_parsed-IsLoaded :
    (env : Environment) (text : Bytes) (o : Option Config) (c : Config)
    → env.unmarshal text ≡ o
    → load_parsed env o ≡ loaded c
    → IsLoaded env (contents text) c
unfolding load_parsed
load_parsed-IsLoaded env text none c e l = cc
load_parsed-IsLoaded env text (some parsed) c e l =
    let (same, valid) = validated-loaded env (settled env parsed) c _ refl l in
    record {
      text = text;
      parsed = parsed;
      was_read = refl;
      was_parsed = e;
      was_settled = same;
      valid = subst (IsValid env) same valid;
    }

load-IsLoaded :
    (env : Environment) (file : FileState) (c : Config)
    → load env file ≡ loaded c
    → IsLoaded env file c
unfolding load
load-IsLoaded env missing c l = cc
load-IsLoaded env unreadable c l = cc
load-IsLoaded env (contents text) c l = load_parsed-IsLoaded env text (env.unmarshal text) c refl l

IsLoaded-load :
    (env : Environment) (file : FileState) (c : Config)
    → IsLoaded env file c
    → load env file ≡ loaded c
unfolding load load_parsed validated
IsLoaded-load env file c v =
    let ok : validate env c ≡ none = IsValid-validate env c v.valid in
    rw (v.was_read, v.was_parsed, v.was_settled, ok) refl

-- A file is loaded exactly when it can be read and parsed and what the defaults and the environment
-- make of it is valid: it has a base URL, a model, at least one worker and one iteration, a port from
-- 1 to 65535 when the API is enabled, and a research timeout that parses.
pub load_iff :
    (env : Environment) (file : FileState) (c : Config)
    → (load env file ≡ loaded c) ↔ IsLoaded env file c
load_iff env file c = (load-IsLoaded env file c, IsLoaded-load env file c)

default_config-IsValid :
    (env : Environment) (d : ℤ) → env.parse_duration "5m" ≡ some d → IsValid env default_config
unfolding default_config
default_config-IsValid env d e = record {
  base_url_given = ground (arith, eq_iff "http://localhost:11434" "");
  model_given = ground (arith, eq_iff "llama3.2" "");
  concurrency_pos = omega arith;
  iterations_pos = omega arith;
  port_in_range = λ h. cc;
  timeout_parses = (d, e);
}

or_default-IsValid :
    (env : Environment) (file : FileState) (o : Loaded) (d : ℤ)
    → load env file ≡ o
    → env.parse_duration "5m" ≡ some d
    → IsValid env (or_default env o)
unfolding or_default
or_default-IsValid env file (loaded c) d l e = (load-IsLoaded env file c l).valid
or_default-IsValid env file (load_failed err) d l e = default_config-IsValid env d e

-- Whatever the file and the environment hold, the configuration that the program starts with is valid,
-- as long as "5m" parses as a duration.
pub load_or_default-IsValid :
    (env : Environment) (file : FileState) (d : ℤ)
    → env.parse_duration "5m" ≡ some d
    → IsValid env (load_or_default env file)
unfolding load_or_default
load_or_default-IsValid env file d e = or_default-IsValid env file (load env file) d refl e
