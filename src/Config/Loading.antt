-- ===== src/Config/Loading.antt =====
-- How the configuration is loaded, pkg/config/config.go. What `fmt.Sscanf`, `time.ParseDuration`,
-- `strings.ToLower` and the YAML library do, the environment and the file are parameters.
use open_research_agent.Base.{
  ◌^◌, Bool, ◌&&◌, ◌||◌, ℤ, pos, ltb_ℤ, eqb_ℤ, some, none, Option, String, str_eq, if◌then◌else◌,
  ◌==◌, is_none, Float64,
}
use open_research_agent.Domain.{Bytes}
use open_research_agent.Config.{Config, default_config}

pub record Environment : Type 0 where
  pub getenv : String → String  -- empty when it is not set
  pub scan_int : String → Option ℤ  -- `Sscanf` with "%d"
  pub parse_duration : String → Option ℤ
  pub to_lower : String → String
  pub unmarshal : Bytes → Option Config  -- into a zero `Config`
  pub marshal : Config → Option Bytes

-- What the file system says of a path.
pub data FileState : Type 0 where
  missing unreadable : FileState
  contents : Bytes → FileState

pub data InvalidConfig : Type 0 where
  base_url_required model_required concurrency_too_low iterations_too_low : InvalidConfig
  port_out_of_range invalid_timeout : InvalidConfig

pub data LoadError : Type 0 where
  not_found not_read not_parsed : LoadError
  invalid : InvalidConfig → LoadError

pub data Loaded : Type 0 where
  loaded : Config → Loaded
  load_failed : LoadError → Loaded

abbrev pub or_text : String → String → String
or_text value default = if str_eq value "" then default else value

-- A float64 is equal to zero when it is zero of either sign.
abbrev pub or_float : Float64 → Float64 → Float64
or_float value default = if (value == 0) || (value == 2 ^ 63) then default else value

abbrev pub or_int : ℤ → ℤ → ℤ
or_int value default = if eqb_ℤ value (pos 0) then default else value

unfoldable pub apply_defaults : Config → Config
unfolding default_config
apply_defaults c = record c {
  ollama = record c.ollama {
    base_url = or_text c.ollama.base_url default_config.ollama.base_url;
    model = or_text c.ollama.model default_config.ollama.model;
    temperature = or_float c.ollama.temperature default_config.ollama.temperature;
    max_tokens = or_int c.ollama.max_tokens default_config.ollama.max_tokens;
  };
  research = record c.research {
    max_concurrency = or_int c.research.max_concurrency default_config.research.max_concurrency;
    max_iterations = or_int c.research.max_iterations default_config.research.max_iterations;
  };
}

-- The port that `Sscanf` writes, or the old one when it fails.
abbrev pub or_port : Option ℤ → ℤ → ℤ
or_port none port = port
or_port (some scanned) port = scanned

module _ (env : Environment) where
  unfoldable pub override_from_env : Config → Config
  override_from_env c =
      let port = env.getenv "API_PORT" in
      let old = c.api.port in
      record c {
        ollama = record c.ollama {
          base_url = or_text (env.getenv "OLLAMA_BASE_URL") c.ollama.base_url;
          model = or_text (env.getenv "OLLAMA_MODEL") c.ollama.model;
        };
        api = record c.api {
          port = if str_eq port "" then old else or_port (env.scan_int port) old;
        };
        observability = record c.observability {
          tracing = record c.observability.tracing {
            endpoint =
                or_text (env.getenv "OTEL_EXPORTER_OTLP_ENDPOINT") c.observability.tracing.endpoint;
          };
        };
      }

  -- The first rule that is broken, if any.
  unfoldable pub validate : Config → Option InvalidConfig
  validate c =
      if str_eq c.ollama.base_url ""
      then some base_url_required
      else if str_eq c.ollama.model ""
      then some model_required
      else if ltb_ℤ c.research.max_concurrency (pos 1)
      then some concurrency_too_low
      else if ltb_ℤ c.research.max_iterations (pos 1)
      then some iterations_too_low
      else if c.api.enabled && (ltb_ℤ c.api.port (pos 1) || ltb_ℤ (pos 65535) c.api.port)
      then some port_out_of_range
      else if is_none (env.parse_duration c.research.timeout)
      then some invalid_timeout
      else none

  unfoldable pub validated : Config → Option InvalidConfig → Loaded
  validated c none = loaded c
  validated c (some broken) = load_failed (invalid broken)

  -- The parsed configuration with the defaults and what the environment overrides.
  unfoldable pub settled : Config → Config
  unfolding apply_defaults override_from_env
  settled parsed = override_from_env (apply_defaults parsed)

  unfoldable pub load_parsed : Option Config → Loaded
  unfolding validated settled
  load_parsed none = load_failed not_parsed
  load_parsed (some parsed) = let c = settled parsed in validated c (validate c)

  unfoldable pub load : FileState → Loaded
  unfolding load_parsed
  load missing = load_failed not_found
  load unreadable = load_failed not_read
  load (contents data_read) = load_parsed (env.unmarshal data_read)

  unfoldable pub or_default : Loaded → Config
  or_default (loaded c) = c
  or_default (load_failed err) = default_config

  unfoldable pub load_or_default : FileState → Config
  unfolding load or_default
  load_or_default file = or_default (load file)

  -- The file that `Save` leaves, on a file system that lets it write.
  unfoldable pub save : Config → FileState → FileState
  save c file = elim (env.marshal c) as (λ _. FileState) [
    | none ↦ file
    | some data_written ↦ contents data_written
  ]

  abbrev pub get_duration : String → Option ℤ
  get_duration value = env.parse_duration value

  unfoldable pub is_production : Bool
  is_production =
      str_eq (env.to_lower (env.getenv "ENVIRONMENT")) "production"
      || str_eq (env.to_lower (env.getenv "ENVIRONMENT")) "prod"
