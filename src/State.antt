-- ===== src/State.antt =====
-- The workflow state, pkg/state/state.go. Each method holds the state's lock, so a call is one step.
-- A task of the map is a value: the methods that change one go through the map, as the source does.
pub mod Tasks
pub mod Pending
pub mod Progress
mod Examples
use open_research_agent.Base.{
  ℕ, ◌*◌, List, [], ◌∷◌, ◌++◌, Bool, true, false, ◌||◌, ℤ, pos, ◌+ℤ◌, leb_ℤ, int64, some, none,
  Option, String, if◌then◌else◌, ltb, leb, ◌==◌, length, Instant, is_zero, minute,
}
use open_research_agent.Base.GoMap.{lookup, insert}
use open_research_agent.Domain.{
  TaskStatus, pending, in_progress, completed, failed, other_status, Phase, clarification, Dynamic,
  ResearchRequest, ResearchResult, ResearchTask, Message, WorkflowContext, TaskSummary, is_pending,
  is_in_progress,
}

pub record StateConfig : Type 0 where
  pub max_iterations : ℤ
  pub max_tasks : ℤ
  pub task_timeout : ℕ
  pub state_timeout : ℕ
  pub enable_checkpoint : Bool

unfoldable pub default_state_config : StateConfig
default_state_config = record {
  max_iterations = pos 10;
  max_tasks = pos 50;
  task_timeout = 5 * minute;
  state_timeout = 30 * minute;
  enable_checkpoint = true;
}

-- A client or a registry is known by a number; `none` is a nil reference.
pub record GraphState : Type 0 where
  pub request : ResearchRequest
  pub tasks : List (String × ResearchTask)
  pub messages : List Message
  pub results : List ResearchResult
  pub current_phase : Phase
  pub iterations : ℤ
  pub max_iterations : ℤ
  pub error : Option String
  pub context : WorkflowContext
  pub metadata : ℕ  -- where the metadata map lies: copies of a state share it
  pub created_at : Instant
  pub updated_at : Instant
  pub llm_client : Option ℕ
  pub tools : Option ℕ
  pub config : Option StateConfig

-- `metadata` is the address of the map that `make` allocates.
unfoldable pub new_graph_state : ResearchRequest → Option StateConfig → ℕ → Instant → GraphState
unfolding default_state_config
new_graph_state request config metadata now =
    let used : StateConfig = elim config [ none ↦ default_state_config | some c ↦ c ] in
    record {
      request = request;
      tasks = [];
      messages = [];
      results = [];
      current_phase = clarification;
      iterations = pos 0;
      max_iterations = used.max_iterations;
      error = none;
      context = record {
        request_id = request.id;
        trace_id = "";
        span_id = "";
        baggage = [];
        metadata = [];
      };
      metadata = metadata;
      created_at = now;
      updated_at = now;
      llm_client = none;
      tools = none;
      config = some used;
    }

-- The task that `UpdateTask` makes for an unknown identifier.
unfoldable pub fresh_task : String → Instant → ResearchTask
fresh_task task_id now = record {
  id = task_id;
  topic = "";
  parent_id = "";
  status = pending;
  priority = pos 0;
  assigned_worker = "";
  results = [];
  created_at = now;
  completed_at = none;
  metadata = [];
}

unfoldable pub task_or_fresh : Option ResearchTask → String → Instant → ResearchTask
unfolding fresh_task
task_or_fresh none task_id now = fresh_task task_id now
task_or_fresh (some task) task_id now = task

unfoldable pub update_task :
    Instant → String → (ResearchTask → ResearchTask) → GraphState → GraphState
unfolding task_or_fresh
update_task now task_id fn s =
    let task = task_or_fresh (lookup task_id s.tasks) task_id now in
    record s { tasks = insert task_id (fn task) s.tasks; updated_at = now }

unfoldable pub add_task : Instant → ResearchTask → GraphState → GraphState
add_task now task s =
    let stamped = record task {
      created_at = if is_zero task.created_at then now else task.created_at;
    } in
    record s { tasks = insert task.id stamped s.tasks; updated_at = now }

unfoldable pub get_task : String → GraphState → Option ResearchTask
get_task task_id s = lookup task_id s.tasks

unfoldable pub add_message : Instant → Message → GraphState → GraphState
add_message now msg s =
    let stamped = record msg { timestamp = if is_zero msg.timestamp then now else msg.timestamp } in
    record s { messages = s.messages ++ stamped ∷ []; updated_at = now }

unfoldable pub get_messages : GraphState → List Message
get_messages s = s.messages

abbrev pub stamp_result : Instant → ResearchResult → ResearchResult
stamp_result now result = record result {
  timestamp = if is_zero result.timestamp then now else result.timestamp;
}

unfoldable pub add_result : Instant → ResearchResult → GraphState → GraphState
add_result now result s = record s {
  results = s.results ++ stamp_result now result ∷ [];
  updated_at = now;
}

-- The loop of `UpdateResults` over the new results.
unfoldable pub append_results :
    Instant → List ResearchResult → List ResearchResult → List ResearchResult
append_results now kept [] = kept
append_results now kept (r ∷ rs) = append_results now (kept ++ stamp_result now r ∷ []) rs

unfoldable pub update_results : Instant → List ResearchResult → GraphState → GraphState
unfolding append_results
update_results now results s = record s {
  results = append_results now s.results results;
  updated_at = now;
}

unfoldable pub set_phase : Instant → Phase → GraphState → GraphState
set_phase now phase s = record s { current_phase = phase; updated_at = now }

abbrev pub get_phase : GraphState → Phase
get_phase s = s.current_phase

unfoldable pub increment_iteration : Instant → GraphState → GraphState
increment_iteration now s = record s {
  iterations = int64 (s.iterations +ℤ pos 1);
  updated_at = now;
}

unfoldable pub set_error : Instant → Option String → GraphState → GraphState
set_error now err s = record s { error = err; updated_at = now }

abbrev pub get_error : GraphState → Option String
get_error s = s.error

unfoldable pub set_llm_client : Option ℕ → GraphState → GraphState
set_llm_client client s = record s { llm_client = client }

unfoldable pub set_tools : Option ℕ → GraphState → GraphState
set_tools tools s = record s { tools = tools }

-- The second test is of a query that the first has found short already.
unfoldable pub needs_clarification : GraphState → Bool
needs_clarification s = ltb (length s.request.query) 10 || (length s.request.query == 0)

-- The loop of `ResearchComplete`: no task is pending or in progress.
unfoldable pub all_settled : List (String × ResearchTask) → Bool
all_settled [] = true
all_settled ((k, task) ∷ tasks) =
    let rest = all_settled tasks in
    if is_pending task.status || is_in_progress task.status then false else rest

unfoldable pub research_complete : GraphState → Bool
unfolding all_settled
research_complete s =
    if all_settled s.tasks
    then leb 3 (length s.results) || leb_ℤ s.max_iterations s.iterations
    else false

unfoldable pub count_status : TaskStatus → TaskSummary → TaskSummary
count_status pending t = record t { pending = int64 (t.pending +ℤ pos 1) }
count_status in_progress t = record t { in_progress = int64 (t.in_progress +ℤ pos 1) }
count_status completed t = record t { completed = int64 (t.completed +ℤ pos 1) }
count_status failed t = record t { failed = int64 (t.failed +ℤ pos 1) }
count_status (other_status _) t = t

-- The loop of `GetTaskStats`.
unfoldable pub count_tasks : List (String × ResearchTask) → TaskSummary → TaskSummary
unfolding count_status
count_tasks [] t = t
count_tasks ((k, task) ∷ tasks) t = count_tasks tasks (count_status task.status t)

unfoldable pub get_task_stats : GraphState → TaskSummary
unfolding count_tasks
get_task_stats s = count_tasks s.tasks (record {
  total = int64 (pos (length s.tasks));
  pending = pos 0;
  in_progress = pos 0;
  completed = pos 0;
  failed = pos 0;
})
