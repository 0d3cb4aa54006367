-- ===== src/Domain.antt =====
-- The data of pkg/domain/models.go that the modelled components keep. A map is an association list
-- with string keys, and an `interface{}` in a metadata map is a `Dynamic`.
use open_research_agent.Base.{ℕ, Bool, Option, List, String, ℤ, Instant, Float64, true, false}

-- A Go string is a list of bytes. What the code measures or cuts is one here; names, identifiers and
-- topics, which it only compares and passes on, are `String`s.
abbrev pub Bytes : Type 0
Bytes = List ℕ

pub data TaskStatus : Type 0 where
  pending in_progress completed failed : TaskStatus
  other_status : String → TaskStatus  -- any other string, the empty one among them

pub data Phase : Type 0 where
  start clarification planning research compression reporting complete : Phase
  other_phase : String → Phase

-- A value of an unknown type: those that the source stores, and any other by a name for it.
pub data Dynamic : Type 0 where
  text : String → Dynamic
  integer : ℤ → Dynamic
  boolean : Bool → Dynamic
  texts : List String → Dynamic
  opaque : ℕ → Dynamic

pub record ResearchRequest : Type 0 where
  pub id : String
  pub query : Bytes
  pub context : Bytes
  pub max_depth : ℤ
  pub timestamp : Instant
  pub metadata : List (String × Dynamic)

pub record ResearchResult : Type 0 where
  pub id : String
  pub task_id : String
  pub source : String
  pub content : Bytes
  pub summary : Bytes
  pub confidence : Float64
  pub metadata : List (String × Dynamic)
  pub timestamp : Instant

pub record ResearchTask : Type 0 where
  pub id : String
  pub topic : String
  pub parent_id : String
  pub status : TaskStatus
  pub priority : ℤ
  pub assigned_worker : String
  pub results : List ResearchResult
  pub created_at : Instant
  pub completed_at : Option Instant
  pub metadata : List (String × Dynamic)

pub record ToolCall : Type 0 where
  pub id : String
  pub name : String
  pub args : List (String × Dynamic)
  pub result : Dynamic
  pub error : String
  pub duration : ℕ

pub record Message : Type 0 where
  pub role : String
  pub content : Bytes
  pub tool_calls : List ToolCall
  pub timestamp : Instant
  pub metadata : List (String × Dynamic)

pub record WorkflowContext : Type 0 where
  pub request_id : String
  pub trace_id : String
  pub span_id : String
  pub baggage : List (String × String)
  pub metadata : List (String × Dynamic)

pub record TaskSummary : Type 0 where
  pub total : ℤ
  pub pending : ℤ
  pub in_progress : ℤ
  pub completed : ℤ
  pub failed : ℤ

abbrev pub is_pending : TaskStatus → Bool
is_pending pending = true
is_pending _ = false

abbrev pub is_in_progress : TaskStatus → Bool
is_in_progress in_progress = true
is_in_progress _ = false

abbrev pub is_completed : TaskStatus → Bool
is_completed completed = true
is_completed _ = false

abbrev pub is_failed : TaskStatus → Bool
is_failed failed = true
is_failed _ = false

pub record ReportSection : Type 0 where
  pub id : String
  pub title : String
  pub content : Bytes
  pub order : ℤ
  pub level : ℤ
  pub metadata : List (String × Dynamic)

pub record Finding : Type 0 where
  pub id : String
  pub title : String
  pub content : Bytes
  pub confidence : Float64
  pub sources : List String
  pub tags : List String
  pub metadata : List (String × Dynamic)

pub record Source : Type 0 where
  pub id : String
  pub type_name : String
  pub title : String
  pub url : String
  pub author : String
  pub published_at : Option Instant
  pub accessed_at : Instant
  pub relevance : Float64
  pub metadata : List (String × Dynamic)

pub record ResearchReport : Type 0 where
  pub id : String
  pub request_id : String
  pub executive : String
  pub sections : List ReportSection
  pub findings : List Finding
  pub sources : List Source
  pub generated_at : Instant
  pub tokens_used : ℤ
  pub metadata : List (String × Dynamic)

-- The options of a call of the language model.
pub record ChatOptions : Type 0 where
  pub model : String
  pub temperature : Float64
  pub max_tokens : ℤ
  pub top_p : Float64
  pub top_k : ℤ
  pub stop : List String
