-- ===== src/State/Tasks.antt =====
-- The task map and the growing lists of the state, over any history of calls.
use open_research_agent.Base.{
  ℕ, ◌≡◌, refl, sym, ap, ◌∙◌, inl, inr, List, [], ◌∷◌, ◌++◌, map, Option-cases, arith, some, All,
  Option, String, str_eq, eq_iff, if◌then◌else◌,
}
use mathlib.Core.List.{append-nil, append_assoc}
use open_research_agent.Base.GoMap
use open_research_agent.Base.GoMap.{lookup, insert, IsMap}
use open_research_agent.Domain.{Phase, ResearchResult, ResearchTask, Message}
use open_research_agent.State.{
  GraphState, task_or_fresh, update_task, add_task, get_task, add_message, add_result,
  update_results, append_results, set_phase, increment_iteration, set_error, set_llm_client,
  set_tools, stamp_result,
}

-- `UpdateTask` on an identifier: the task that stands under it, or a fresh pending one, goes
-- through the function, and no other task changes.
pub get_task-update_task :
    (now : ℕ) (task_id other : String) (fn : ResearchTask → ResearchTask) (s : GraphState)
    → get_task other (update_task now task_id fn s) ≡ (
        if str_eq task_id other
        then some (fn (task_or_fresh (get_task task_id s) task_id now))
        else get_task other s)
unfolding get_task update_task
get_task-update_task now task_id other fn s =
    GoMap.lookup-insert task_id other (fn (task_or_fresh (lookup task_id s.tasks) task_id now))
      s.tasks

-- A call of a method that changes the state.
pub data Call : Type 0 where
  updates_task : String → (ResearchTask → ResearchTask) → Call
  adds_task : ResearchTask → Call
  adds_message : Message → Call
  adds_result : ResearchResult → Call
  updates_results : List ResearchResult → Call
  sets_phase : Phase → Call
  increments_iteration : Call
  sets_error : Option String → Call
  sets_llm_client : Option ℕ → Call
  sets_tools : Option ℕ → Call

unfoldable pub step : GraphState → ℕ × Call → GraphState
step s (now, updates_task task_id fn) = update_task now task_id fn s
step s (now, adds_task task) = add_task now task s
step s (now, adds_message msg) = add_message now msg s
step s (now, adds_result result) = add_result now result s
step s (now, updates_results results) = update_results now results s
step s (now, sets_phase phase) = set_phase now phase s
step s (now, increments_iteration) = increment_iteration now s
step s (now, sets_error err) = set_error now err s
step s (now, sets_llm_client client) = set_llm_client client s
step s (now, sets_tools tools) = set_tools tools s

unfoldable pub run : GraphState → List (ℕ × Call) → GraphState
run s [] = s
run s (c ∷ cs) = run (step s c) cs

-- Every task stands under its own identifier.
abbrev pub IsKeyed : List (String × ResearchTask) → Type 0
IsKeyed = All (λ entry. entry.0 ≡ entry.1.id)

pub record IsWellFormed (s : GraphState) : Type 0 where
  pub is_map : IsMap s.tasks
  pub is_keyed : IsKeyed s.tasks

insert-IsKeyed :
    (task : ResearchTask) (k : String) (tasks : List (String × ResearchTask))
    → k ≡ task.id
    → IsKeyed tasks
    → IsKeyed (insert k task tasks)
unfolding insert
insert-IsKeyed task k [] e h = (e, tt)
insert-IsKeyed task k ((j, other) ∷ tasks) e h = ground (arith, insert-IsKeyed task k tasks e h.1)

lookup-IsKeyed :
    (k : String) (tasks : List (String × ResearchTask)) (task : ResearchTask)
    → IsKeyed tasks
    → lookup k tasks ≡ some task
    → task.id ≡ k
unfolding lookup
lookup-IsKeyed k [] task h e = cc
lookup-IsKeyed k ((j, other) ∷ tasks) task h e =
    ground (arith, eq_iff j k, lookup-IsKeyed k tasks task h.1)

-- The functions given to `UpdateTask` keep the identifier.
abbrev pub KeepsId : ℕ × Call → Type 0
KeepsId (now, updates_task task_id fn) = (task : ResearchTask) → (fn task).id ≡ task.id
KeepsId (now, _) = Unit

task_or_fresh-id :
    (s : GraphState) (task_id : String) (now : ℕ)
    → IsKeyed s.tasks
    → (task_or_fresh (lookup task_id s.tasks) task_id now).id ≡ task_id
unfolding task_or_fresh
task_or_fresh-id s task_id now h = elim (Option-cases (lookup task_id s.tasks)) [
  | inl e ↦ rw e
  | inr (task, e) ↦ rw e (lookup-IsKeyed task_id s.tasks task h e)
]

step-IsWellFormed :
    (s : GraphState) (c : ℕ × Call) → KeepsId c → IsWellFormed s → IsWellFormed (step s c)
unfolding step update_task add_task add_message add_result update_results set_phase
    increment_iteration set_error set_llm_client set_tools
step-IsWellFormed s (now, updates_task task_id fn) keeps v = record {
  is_map = GoMap.insert-IsMap task_id _ s.tasks v.is_map;
  is_keyed =
      insert-IsKeyed _ task_id s.tasks (sym (keeps _ ∙ task_or_fresh-id s task_id now v.is_keyed))
        v.is_keyed;
}
step-IsWellFormed s (now, adds_task task) keeps v = record {
  is_map = GoMap.insert-IsMap task.id _ s.tasks v.is_map;
  is_keyed = insert-IsKeyed _ task.id s.tasks refl v.is_keyed;
}
step-IsWellFormed s (now, _) keeps v = record { is_map = v.is_map; is_keyed = v.is_keyed }

-- Over any history of calls whose updates keep the identifiers, a key stands once in the task map
-- and every task stands under its own identifier.
pub run-IsWellFormed :
    (s : GraphState) (cs : List (ℕ × Call))
    → All KeepsId cs
    → IsWellFormed s
    → IsWellFormed (run s cs)
unfolding run
run-IsWellFormed s [] h v = v
run-IsWellFormed s (c ∷ cs) h v = run-IsWellFormed (step s c) cs h.1 (step-IsWellFormed s c h.0 v)

-- What a call adds to the results and to the messages.
abbrev pub new_results : ℕ × Call → List ResearchResult
new_results (now, adds_result result) = stamp_result now result ∷ []
new_results (now, updates_results results) = map (stamp_result now) results
new_results (now, _) = []

abbrev pub all_results : List (ℕ × Call) → List ResearchResult
all_results [] = []
all_results (c ∷ cs) = new_results c ++ all_results cs

append_results-map :
    (now : ℕ) (kept rs : List ResearchResult)
    → append_results now kept rs ≡ kept ++ map (stamp_result now) rs
unfolding append_results
append_results-map now kept [] = sym (append-nil kept)
append_results-map now kept (r ∷ rs) =
    append_results-map now (kept ++ stamp_result now r ∷ []) rs
    ∙ append_assoc kept (stamp_result now r ∷ []) _

step_results : (s : GraphState) (c : ℕ × Call) → (step s c).results ≡ s.results ++ new_results c
unfolding step update_task add_task add_message add_result update_results set_phase
    increment_iteration set_error set_llm_client set_tools
step_results s (now, updates_results rs) = append_results-map now s.results rs
step_results s (now, adds_result r) = refl
step_results s (now, _) = sym (append-nil s.results)

-- Over any history of calls the results only grow: they are the results of before, then those that
-- the calls gave, in order, with the time of the call where they had none.
pub run_results :
    (s : GraphState) (cs : List (ℕ × Call)) → (run s cs).results ≡ s.results ++ all_results cs
unfolding run
run_results s [] = sym (append-nil s.results)
run_results s (c ∷ cs) =
    run_results (step s c) cs
    ∙ ap (λ (rs : List ResearchResult). rs ++ all_results cs) (step_results s c)
    ∙ append_assoc s.results (new_results c) (all_results cs)
