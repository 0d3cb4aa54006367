-- ===== src/State/Examples.antt =====
-- The workflow state on concrete tasks.
use open_research_agent.Base.{ℕ, ◌≡◌, refl, List, [], ◌∷◌, map, pos, none, String, codes}
use mathlib.Core.List.Perm
use open_research_agent.Base.GoMap.{insert}
use open_research_agent.Domain.{ResearchTask, ResearchRequest, TaskStatus, pending, completed}
use open_research_agent.State.{GraphState, new_graph_state, add_task}
use open_research_agent.State.Tasks.{run, step, Call, adds_task, IsWellFormed, run-IsWellFormed}
use open_research_agent.State.Pending.{
  get_pending_tasks, get_pending_tasks_sorted, get_next_pending_task, get_next_pending_task-IsNext,
  IsNext, IsDescending,
}

abbrev request : ResearchRequest
request = record {
  id = "req_1";
  query = codes "history of computing";
  context = [];
  max_depth = pos 3;
  timestamp = 7;
  metadata = [];
}

abbrev task_of : String → ℕ → TaskStatus → ResearchTask
task_of id priority status = record fresh { id = id; priority = pos priority; status = status }
  where
    fresh : ResearchTask
    fresh = record {
      id = "";
      topic = "";
      parent_id = "";
      status = pending;
      priority = pos 0;
      assigned_worker = "";
      results = [];
      created_at = 5;
      completed_at = none;
      metadata = [];
    }

abbrev filling : List (ℕ × Call)
filling =
    (10, adds_task (task_of "a" 1 pending))
    ∷ (11, adds_task (task_of "b" 3 pending))
    ∷ (12, adds_task (task_of "c" 2 completed))
    ∷ (13, adds_task (task_of "d" 2 pending))
    ∷ []

abbrev empty_state : GraphState
empty_state = new_graph_state request none 0 9

abbrev filled : GraphState
filled = run empty_state filling

priorities : map (λ task. task.id) (get_pending_tasks filled.tasks) ≡ "b" ∷ "d" ∷ "a" ∷ []
unfolding run step add_task new_graph_state get_pending_tasks insert
priorities = refl

run-IsWellFormed_example : IsWellFormed filled
unfolding new_graph_state
run-IsWellFormed_example =
    run-IsWellFormed empty_state filling (tt, (tt, (tt, (tt, tt))))
      (record { is_map = tt; is_keyed = tt })

get_pending_tasks_sorted_example : IsDescending (get_pending_tasks filled.tasks)
get_pending_tasks_sorted_example =
    (get_pending_tasks_sorted filled filled.tasks (Perm.refl filled.tasks)).0

abbrev spent : GraphState
spent = record empty_state { iterations = pos 10 }

get_next_pending_task-IsNext_example : IsNext filled.tasks (get_next_pending_task filled.tasks)
get_next_pending_task-IsNext_example = get_next_pending_task-IsNext filled.tasks
