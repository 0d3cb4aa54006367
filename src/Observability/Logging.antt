-- ===== src/Observability/Logging.antt =====
-- The structured logger, pkg/observability/logging.go. The output is the list of its lines, the latest
-- first; encoding as JSON, the timestamp and the span of the context are parameters.
use open_research_agent.Base.{
  List, [], ◌∷◌, ◌++◌, Bool, some, none, Option, String, if◌then◌else◌, codes,
}
use open_research_agent.Base.GoMap.{insert}
use open_research_agent.Observability.Data.{Attributes, phrase}
use open_research_agent.Domain.{Bytes}

pub data LogLevel : Type 0 where
  debug_level info_level warn_level error_level : LogLevel

abbrev pub level_text : LogLevel → Bytes
level_text debug_level = codes "DEBUG"
level_text info_level = codes "INFO"
level_text warn_level = codes "WARN"
level_text error_level = codes "ERROR"

pub record LogEntry : Type 0 where
  pub timestamp : Bytes
  pub severity : LogLevel
  pub component : String
  pub message : String
  pub trace_id : Bytes
  pub span_id : Bytes
  pub attributes : Option Attributes  -- a nil map, or a map

-- The span context: its identifiers, when it is valid.
pub record SpanContext : Type 0 where
  pub is_valid : Bool
  pub trace_id : Bytes
  pub span_id : Bytes

pub record StructuredLogger : Type 0 where
  pub component : String
  pub output : List Bytes

unfoldable pub new_structured_logger : List Bytes → String → StructuredLogger
new_structured_logger log_output component = record { component = component; output = log_output }

unfoldable pub with_component : String → StructuredLogger → StructuredLogger
with_component component l = record { component = component; output = l.output }

unfoldable pub extract_trace_info : Option SpanContext → Bytes × Bytes
extract_trace_info none = ([], [])
extract_trace_info (some span) = if span.is_valid then (span.trace_id, span.span_id) else ([], [])

-- A call of the logger, with what it leaves of the maps it was given, or a panic.
pub data Logged : Type 0 where
  logged : StructuredLogger → List (Option Attributes) → Logged
  log_panicked : Logged

module _ (marshal : LogEntry → Option Bytes) (now : Bytes) (span : Option SpanContext) where
  -- The plain line when the encoding fails.
  abbrev pub plain_line : LogEntry → Bytes
  plain_line entry =
      codes "["
      ++ level_text entry.severity
      ++ codes "] "
      ++ codes entry.component
      ++ codes ": "
      ++ codes entry.message

  abbrev pub entry_of : StructuredLogger → LogLevel → String → Option Attributes → LogEntry
  entry_of l level message attributes =
      let ids = extract_trace_info span in
      record {
        timestamp = now;
        severity = level;
        component = l.component;
        message = message;
        trace_id = ids.0;
        span_id = ids.1;
        attributes = attributes;
      }

  unfoldable pub log : LogLevel → String → Option Attributes → StructuredLogger → StructuredLogger
  log level message attributes l =
      let entry = entry_of l level message attributes in
      let line : Bytes = elim (marshal entry) [
        | some data_bytes ↦ data_bytes
        | none ↦ plain_line entry
      ] in
      record l { output = line ∷ l.output }

  -- The first of the maps given.
  abbrev pub first_attributes : List (Option Attributes) → Option Attributes
  first_attributes [] = none
  first_attributes (given ∷ others) = given

  unfoldable pub debug : String → List (Option Attributes) → StructuredLogger → Logged
  unfolding log
  debug message attrs l = logged (log debug_level message (first_attributes attrs) l) attrs

  unfoldable pub info : String → List (Option Attributes) → StructuredLogger → Logged
  unfolding log
  info message attrs l = logged (log info_level message (first_attributes attrs) l) attrs

  unfoldable pub warn : String → List (Option Attributes) → StructuredLogger → Logged
  unfolding log
  warn message attrs l = logged (log warn_level message (first_attributes attrs) l) attrs

  -- `Error`, whose write to the map of the caller shows in it, and whose write to a nil map panics.
  unfoldable pub error :
      String → Option Bytes → List (Option Attributes) → StructuredLogger → Logged
  unfolding log
  error message none [] l = logged (log error_level message (some []) l) []
  error message (some err) [] l =
      logged (log error_level message (some (insert "error" (phrase err) [])) l) []
  error message none (given ∷ others) l = logged (log error_level message given l) (given ∷ others)
  error message (some err) (none ∷ others) l = log_panicked
  error message (some err) (some given ∷ others) l =
      let written = some (insert "error" (phrase err) given) in
      logged (log error_level message written l) (written ∷ others)
