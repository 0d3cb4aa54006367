-- ===== src/Store.antt =====
-- The memory store of workflow states, pkg/state/store.go, with the snapshot of pkg/state/state.go. A
-- stored state is a value but for its metadata, a Go map that copies share: it is an address in a
-- heap. The file store is a placeholder in the source, and is not modelled.
pub mod Copies
pub mod Keys
pub mod Files
pub mod Filter
mod Examples
use open_research_agent.Base.{
  ℕ, List, [], ◌∷◌, map, Bool, true, false, not, ◌&&◌, ℤ, some, none, Option, String, str_eq,
  if◌then◌else◌, ltb, ◌==◌, length, any_of, Instant,
}
use open_research_agent.Base.GoMap.{lookup, insert, erase}
use open_research_agent.Domain.{
  Phase, start, clarification, planning, research, compression, reporting, complete, other_phase,
  Dynamic, ResearchRequest, ResearchResult, ResearchTask, Message, WorkflowContext,
}
use open_research_agent.State.{GraphState}

pub record GraphStateSnapshot : Type 0 where
  pub request : ResearchRequest
  pub tasks : List (String × ResearchTask)
  pub messages : List Message
  pub results : List ResearchResult
  pub current_phase : Phase
  pub iterations : ℤ
  pub max_iterations : ℤ
  pub error : Option String
  pub context : WorkflowContext
  pub metadata : ℕ
  pub created_at : Instant
  pub updated_at : Instant

-- `GetSnapshot`: tasks, messages and results are copied, the metadata map is shared.
unfoldable pub get_snapshot : GraphState → GraphStateSnapshot
get_snapshot s = record {
  request = s.request;
  tasks = s.tasks;
  messages = s.messages;
  results = s.results;
  current_phase = s.current_phase;
  iterations = s.iterations;
  max_iterations = s.max_iterations;
  error = s.error;
  context = s.context;
  metadata = s.metadata;
  created_at = s.created_at;
  updated_at = s.updated_at;
}

-- The state that the store builds from a snapshot; the runtime fields are nil in it.
unfoldable pub from_snapshot : GraphStateSnapshot → GraphState
from_snapshot snapshot = record {
  request = snapshot.request;
  tasks = snapshot.tasks;
  messages = snapshot.messages;
  results = snapshot.results;
  current_phase = snapshot.current_phase;
  iterations = snapshot.iterations;
  max_iterations = snapshot.max_iterations;
  error = snapshot.error;
  context = snapshot.context;
  metadata = snapshot.metadata;
  created_at = snapshot.created_at;
  updated_at = snapshot.updated_at;
  llm_client = none;
  tools = none;
  config = none;
}

abbrev pub MemoryStore : Type 0
MemoryStore = List (String × GraphState)

-- The metadata maps by their addresses.
abbrev pub MapHeap : Type 0
MapHeap = ℕ → List (String × Dynamic)

pub data StoreError : Type 0 where
  request_id_required state_not_found : StoreError

unfoldable pub save : Instant → GraphState → MemoryStore → MemoryStore × Option StoreError
unfolding get_snapshot from_snapshot
save now s m = if str_eq s.request.id "" then (m, some request_id_required) else (
  insert s.request.id (record (from_snapshot (get_snapshot s)) { updated_at = now }) m,
  none,
)

unfoldable pub load : String → MemoryStore → Option GraphState
unfolding get_snapshot from_snapshot
load request_id m = elim (lookup request_id m) [
  | none ↦ none
  | some s ↦ some (from_snapshot (get_snapshot s))
]

-- An `interface{}` that `Update` takes, by the types that it tells apart.
pub data UpdateValue : Type 0 where
  as_phase : Phase → UpdateValue
  as_int : ℤ → UpdateValue
  as_error : String → UpdateValue
  as_map : List (String × Dynamic) → UpdateValue
  as_other : UpdateValue

abbrev pub insert_all : List (String × Dynamic) → List (String × Dynamic) → List (String × Dynamic)
insert_all [] kept = kept
insert_all ((k, v) ∷ entries) kept = insert_all entries (insert k v kept)

abbrev pub write_at : ℕ → List (String × Dynamic) → MapHeap → MapHeap
write_at address entries heap other = if other == address then entries else heap other

-- One round of the loop of `Update`: a value of another type than its key asks for is passed over.
unfoldable pub apply_value : String → UpdateValue → GraphState × MapHeap → GraphState × MapHeap
apply_value key (as_phase phase) (s, heap) =
    (if str_eq key "phase" then record s { current_phase = phase } else s, heap)
apply_value key (as_int n) (s, heap) =
    (if str_eq key "iterations" then record s { iterations = n } else s, heap)
apply_value key (as_error err) (s, heap) =
    (if str_eq key "error" then record s { error = some err } else s, heap)
apply_value key (as_map entries) (s, heap) = (
  s,
  if str_eq key "metadata"
      then write_at s.metadata (insert_all entries (heap s.metadata)) heap
      else heap,
)
apply_value key as_other (s, heap) = (s, heap)

unfoldable pub apply_updates :
    List (String × UpdateValue) → GraphState × MapHeap → GraphState × MapHeap
unfolding apply_value
apply_updates [] sh = sh
apply_updates ((key, value) ∷ updates) sh = apply_updates updates (apply_value key value sh)

unfoldable pub update_stored :
    Instant
    → Option GraphState
    → String
    → List (String × UpdateValue)
    → MemoryStore × MapHeap
    → MemoryStore × MapHeap × Option StoreError
unfolding apply_updates
update_stored now none request_id updates (m, heap) = (m, heap, some state_not_found)
update_stored now (some s) request_id updates (m, heap) =
    let (s', heap') = apply_updates updates (s, heap) in
    (insert request_id (record s' { updated_at = now }) m, heap', none)

unfoldable pub update :
    Instant
    → String
    → List (String × UpdateValue)
    → MemoryStore × MapHeap
    → MemoryStore × MapHeap × Option StoreError
unfolding update_stored
update now request_id updates (m, heap) =
    update_stored now (lookup request_id m) request_id updates (m, heap)

unfoldable pub delete : String → MemoryStore → MemoryStore
delete request_id m = erase request_id m

pub record StateFilter : Type 0 where
  pub request_ids : List String
  pub phase : List Phase
  pub start_time : Option Instant
  pub end_time : Option Instant

-- The string of a phase, by which phases are compared.
abbrev pub phase_name : Phase → String
phase_name start = "start"
phase_name clarification = "clarification"
phase_name planning = "planning"
phase_name research = "research"
phase_name compression = "compression"
phase_name reporting = "reporting"
phase_name complete = "complete"
phase_name (other_phase name) = name

abbrev pub starts_before : Option Instant → Instant → Bool
starts_before none created = false
starts_before (some t) created = ltb created t

abbrev pub ends_after : Option Instant → Instant → Bool
ends_after none created = false
ends_after (some t) created = ltb t created

-- A list of names is not empty, and the name is not on it.
abbrev pub is_missed : List String → String → Bool
is_missed names name = ltb 0 (length names) && not (any_of (str_eq name) names)

-- The tests of `List`, each with its `continue`.
unfoldable pub passes : StateFilter → GraphState → Bool
passes filter s =
    if is_missed filter.request_ids s.request.id
    then false
    else if is_missed (map phase_name filter.phase) (phase_name s.current_phase)
    then false
    else if starts_before filter.start_time s.created_at
    then false
    else if ends_after filter.end_time s.created_at
    then false
    else true

-- `range` is the order in which the loop visits the store.
unfoldable pub list_states : StateFilter → List (String × GraphState) → List GraphState
unfolding passes get_snapshot from_snapshot
list_states filter [] = []
list_states filter ((k, s) ∷ range) =
    let rest = list_states filter range in
    if passes filter s then from_snapshot (get_snapshot s) ∷ rest else rest
