-- ===== src/Distribute/Rotation.antt =====
-- The round-robin distributor goes round the workers, until its index overflows.
use open_research_agent.Base.{
  ℕ, zero, suc, ◌+◌, ◌-◌, ◌%◌, ◌^◌, ◌<◌, ◌≡◌, refl, ◌∙◌, List, [], ◌∷◌, ◌++◌, pos, ◌+ℤ◌, int32,
  arith, some, String, length, get_elem?, float_one,
}
use native.Mathlib.Nat.{mod-lt}
use mathlib.Core.List.{append_assoc, append-nil}
use open_research_agent.Domain.{ResearchTask}
use open_research_agent.Distribute.{
  TaskAssignment, assigned, index_panic, assignment, rotate_tasks, distribute_round_robin,
}

-- The assignments of `tasks` where the first of them is the `i`th that the distributor has seen:
-- each goes to the worker at its number modulo the number of workers.
pub data Rotates (now : ℕ) (workers : List String)
    : ℕ → List ResearchTask → List TaskAssignment → Type 0 where
  done : {i : ℕ} → Rotates now workers i [] []
  turn :
      {i : ℕ} {task : ResearchTask} {tasks : List ResearchTask} {given : List TaskAssignment}
      (worker : String)
      → get_elem? workers (i % length workers) ≡ some worker
      → Rotates now workers (suc i) tasks given
      → Rotates now workers i (task ∷ tasks) (assignment now task worker float_one ∷ given)

-- An index below the length has an element.
get_elem?_of_lt :
    (xs : List String) (i : ℕ) → i < length xs → (x : String) × (get_elem? xs i ≡ some x)
get_elem?_of_lt [] i h = elim h [ ]
get_elem?_of_lt (x ∷ xs) zero h = (x, refl)
get_elem?_of_lt (x ∷ xs) (suc i) h = get_elem?_of_lt xs i (omega arith)

worker_in_turn :
    (first : String) (workers : List String) (i : ℕ)
    → (worker : String) × (get_elem? (first ∷ workers) (i % length (first ∷ workers)) ≡ some worker)
worker_in_turn first workers i =
    get_elem?_of_lt (first ∷ workers) (i % length (first ∷ workers)) (mod-lt i (omega arith))

int32-pos_suc : (i : ℕ) → i + 1 < 2 ^ 31 → int32 (pos i +ℤ pos 1) ≡ pos (suc i)
unfolding int32
int32-pos_suc i h = ground arith

rotate_tasks-cons :
    (now : ℕ) (workers : List String) (i : ℕ) (task : ResearchTask) (tasks : List ResearchTask)
    (before : List TaskAssignment) (worker : String)
    → i + 1 < 2 ^ 31
    → get_elem? workers (suc i % length workers) ≡ some worker
    → rotate_tasks now workers (pos i) (task ∷ tasks) before
      ≡ rotate_tasks now workers
          (pos (suc i))
          tasks
          (before ++ assignment now task worker float_one ∷ [])
unfolding rotate_tasks
rotate_tasks-cons now workers i task tasks before worker h at = ground (arith, int32-pos_suc i h)

rotate_tasks-Rotates :
    (now : ℕ) (first : String) (workers : List String) (i : ℕ) (tasks : List ResearchTask)
    (before : List TaskAssignment)
    → i + length tasks < 2 ^ 31
    → (given : List TaskAssignment) × (rotate_tasks now (first ∷ workers) (pos i) tasks before
        ≡ (pos (i + length tasks), assigned (before ++ given)))
      × Rotates now (first ∷ workers) (suc i) tasks given
unfolding rotate_tasks
rotate_tasks-Rotates now first workers i [] before h = ([], ground (arith, append-nil before), done)
rotate_tasks-Rotates now first workers i (task ∷ tasks) before h =
    let (worker, at) = worker_in_turn first workers (suc i) in
    let a = assignment now task worker float_one in
    let (given, e, r) =
      rotate_tasks-Rotates now first workers (suc i) tasks (before ++ a ∷ []) (omega arith) in
    (
      a ∷ given,
      rotate_tasks-cons now (first ∷ workers) i task tasks before worker (omega arith) at
          ∙ e
          ∙ ground (arith, append_assoc before (a ∷ []) given),
      turn worker at r,
    )

-- From a counter that the tasks do not overflow, the distributor gives each task to the next worker
-- in turn, the first to the one after the counter, and counts the tasks.
pub distribute_round_robin-Rotates :
    (now : ℕ) (first : String) (workers : List String) (i : ℕ) (tasks : List ResearchTask)
    → i + length tasks < 2 ^ 31
    → (given : List TaskAssignment) × (distribute_round_robin now (pos i) tasks (first ∷ workers)
        ≡ (pos (i + length tasks), assigned given))
      × Rotates now (first ∷ workers) (suc i) tasks given
unfolding distribute_round_robin
distribute_round_robin-Rotates now first workers i tasks h =
    rotate_tasks-Rotates now first workers i tasks [] h

-- The counter is an int32 that never starts anew: at its largest value the next task makes it
-- negative, and the index panics whenever the number of workers does not divide 2^31.
pub distribute_round_robin_panics :
    (now : ℕ) (first : String) (workers : List String) (task : ResearchTask)
    (tasks : List ResearchTask)
    → 0 < 2 ^ 31 % length (first ∷ workers)
    → (distribute_round_robin now (pos (2 ^ 31 - 1)) (task ∷ tasks) (first ∷ workers)).1
      ≡ index_panic
unfolding distribute_round_robin int32
distribute_round_robin_panics now first workers task tasks h = ground arith
