-- ===== src/Config/Data.antt =====
-- The configuration of the program, pkg/config/config.go: its sections, and the default one.
use open_research_agent.Base.{
  ℤ, pos, Bool, true, false, String, List, [], ◌∷◌, Float64, float_zero, float_one, float_0_3,
  float_0_7,
}

pub record OllamaConfig : Type 0 where
  pub base_url : String
  pub model : String
  pub temperature : Float64
  pub max_tokens : ℤ
  pub top_p : Float64
  pub top_k : ℤ
  pub timeout : String

pub record ResearchConfig : Type 0 where
  pub max_concurrency : ℤ
  pub max_iterations : ℤ
  pub max_depth : ℤ
  pub compression_ratio : Float64
  pub timeout : String
  pub max_tasks : ℤ
  pub task_timeout : String

pub record WebSearchConfig : Type 0 where
  pub enabled : Bool
  pub provider : String
  pub api_key : String
  pub max_results : ℤ
  pub safe_search : Bool

pub record ThinkConfig : Type 0 where
  pub enabled : Bool
  pub max_depth : ℤ
  pub max_tokens : ℤ

pub record SummarizeConfig : Type 0 where
  pub enabled : Bool
  pub max_length : ℤ
  pub min_length : ℤ
  pub ratio : Float64

pub record ToolsConfig : Type 0 where
  pub web_search : WebSearchConfig
  pub think : ThinkConfig
  pub summarize : SummarizeConfig

pub record StorageConfig : Type 0 where
  pub type_name : String
  pub path : String
  pub connection_string : String
  pub max_size : ℤ
  pub ttl : String

pub record CorsConfig : Type 0 where
  pub allowed_origins : List String
  pub allowed_methods : List String
  pub allowed_headers : List String
  pub max_age : ℤ

pub record RateLimitConfig : Type 0 where
  pub enabled : Bool
  pub requests_per_minute : ℤ
  pub burst_size : ℤ

pub record AuthConfig : Type 0 where
  pub enabled : Bool
  pub type_name : String
  pub api_key : String
  pub jwt_secret : String

pub record ApiConfig : Type 0 where
  pub enabled : Bool
  pub port : ℤ
  pub host : String
  pub cors : CorsConfig
  pub rate_limit : RateLimitConfig
  pub authentication : AuthConfig

pub record TracingConfig : Type 0 where
  pub enabled : Bool
  pub provider : String
  pub endpoint : String
  pub sampling_rate : Float64
  pub insecure : Bool

pub record MetricsConfig : Type 0 where
  pub enabled : Bool
  pub provider : String
  pub port : ℤ
  pub endpoint : String
  pub push_interval : String

pub record LoggingConfig : Type 0 where
  pub level : String
  pub format : String
  pub output : String
  pub file_path : String
  pub max_size : ℤ
  pub max_backups : ℤ
  pub max_age : ℤ

pub record ObservabilityConfig : Type 0 where
  pub tracing : TracingConfig
  pub metrics : MetricsConfig
  pub logging : LoggingConfig

pub record Config : Type 0 where
  pub ollama : OllamaConfig
  pub research : ResearchConfig
  pub tools : ToolsConfig
  pub storage : StorageConfig
  pub api : ApiConfig
  pub observability : ObservabilityConfig

-- `Default`.
unfoldable pub default_config : Config
default_config = record {
  ollama = record {
    base_url = "http://localhost:11434";
    model = "llama3.2";
    temperature = float_0_7;
    max_tokens = pos 4096;
    top_p = float_zero;
    top_k = pos 0;
    timeout = "2m";
  };
  research = record {
    max_concurrency = pos 5;
    max_iterations = pos 6;
    max_depth = pos 3;
    compression_ratio = float_0_3;
    timeout = "5m";
    max_tasks = pos 50;
    task_timeout = "2m";
  };
  tools = record {
    web_search = record {
      enabled = true;
      provider = "duckduckgo";
      api_key = "";
      max_results = pos 5;
      safe_search = true;
    };
    think = record { enabled = true; max_depth = pos 3; max_tokens = pos 1000 };
    summarize = record {
      enabled = true;
      max_length = pos 500;
      min_length = pos 100;
      ratio = float_0_3;
    };
  };
  storage = record {
    type_name = "memory";
    path = "./data";
    connection_string = "";
    max_size = pos 1000;
    ttl = "24h";
  };
  api = record {
    enabled = false;
    port = pos 8080;
    host = "0.0.0.0";
    cors = record {
      allowed_origins = "*" ∷ [];
      allowed_methods = "GET" ∷ "POST" ∷ "PUT" ∷ "DELETE" ∷ "OPTIONS" ∷ [];
      allowed_headers = "*" ∷ [];
      max_age = pos 3600;
    };
    rate_limit = record { enabled = false; requests_per_minute = pos 60; burst_size = pos 10 };
    authentication = record { enabled = false; type_name = "none"; api_key = ""; jwt_secret = "" };
  };
  observability = record {
    tracing = record {
      enabled = true;
      provider = "otlp";
      endpoint = "localhost:4317";
      sampling_rate = float_one;
      insecure = true;
    };
    metrics = record {
      enabled = true;
      provider = "prometheus";
      port = pos 2223;
      endpoint = "";
      push_interval = "10s";
    };
    logging = record {
      level = "info";
      format = "json";
      output = "stdout";
      file_path = "";
      max_size = pos 100;
      max_backups = pos 3;
      max_age = pos 7;
    };
  };
}
