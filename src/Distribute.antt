-- ===== src/Distribute.antt =====
-- The task distributors of pkg/workflow/supervisor.go. A worker counts here by its identifier, which
-- is all that they read of it.
pub mod Balance
pub mod Rotation
pub mod Capacity
mod Examples
use open_research_agent.Base.{
  suc, ◌+◌, ◌-◌, ◌*◌, ◌%◌, ◌^◌, List, [], ◌∷◌, ◌++◌, ℤ, pos, negsuc, ◌+ℤ◌, ltb_ℤ, int32, some, none,
  Option, String, if◌then◌else◌, ◌==◌, is_none, length, get_elem?, Float64, float_one, Instant,
  minute,
}
use open_research_agent.Base.GoMap.{lookup, insert}
use open_research_agent.Domain.{ResearchTask}

pub record TaskAssignment : Type 0 where
  pub task : ResearchTask
  pub worker_id : String
  pub priority : Float64
  pub deadline : Instant

-- What `Distribute` returns, or that an index was out of range.
pub data Distribution : Type 0 where
  assigned : List TaskAssignment → Distribution
  no_workers : Distribution
  index_panic : Distribution

abbrev pub assignment : Instant → ResearchTask → String → Float64 → TaskAssignment
assignment now task worker_id priority = record {
  task = task;
  worker_id = worker_id;
  priority = priority;
  deadline = now + 2 * minute;
}

-- LoadBalancedDistributor: the load of each worker, an atomic int32.
abbrev pub Loads : Type 0
Loads = List (String × ℤ)

abbrev pub no_loads : Loads
no_loads = []

-- `d.workerLoads[id].Load()`; the first loop of `Distribute` has put an entry there.
unfoldable pub load_of : Loads → String → ℤ
load_of loads worker = elim (lookup worker loads) [ none ↦ pos 0 | some load ↦ load ]

unfoldable pub init_loads : Loads → List String → Loads
init_loads loads [] = loads
init_loads loads (worker ∷ workers) =
    init_loads (if is_none (lookup worker loads) then insert worker (pos 0) loads else loads)
      workers

-- The two variables of the loop that finds the least load.
pub record Choice : Type 0 where
  pub selected_worker : Option String
  pub min_load : ℤ

unfoldable pub choose_from : Loads → Choice → List String → Choice
choose_from loads c [] = c
choose_from loads c (worker ∷ workers) =
    let load = load_of loads worker in
    choose_from loads
      (if ltb_ℤ load c.min_load
        then record { selected_worker = some worker; min_load = load }
        else c)
      workers

unfoldable pub choose : Loads → List String → Choice
unfolding choose_from
choose loads workers =
    choose_from loads (record { selected_worker = none; min_load = pos (2 ^ 31 - 1) }) workers

-- The body of the loop over the tasks, for the worker that was found.
unfoldable pub assign_to :
    Instant
    → ResearchTask
    → Option String
    → Loads × List TaskAssignment
    → Loads × List TaskAssignment
unfolding load_of
assign_to now task none (loads, done) = (loads, done)
assign_to now task (some worker) (loads, done) = (
  insert worker (int32 (load_of loads worker +ℤ pos 1)) loads,
  done ++ assignment now task worker float_one ∷ [],
)

unfoldable pub assign_tasks :
    Instant
    → List String
    → List ResearchTask
    → Loads × List TaskAssignment
    → Loads × List TaskAssignment
unfolding assign_to choose
assign_tasks now workers [] d = d
assign_tasks now workers (task ∷ tasks) d =
    assign_tasks now workers tasks (assign_to now task (choose d.0 workers).selected_worker d)

unfoldable pub distribute_balanced :
    Instant → Loads → List ResearchTask → List String → Loads × Distribution
unfolding assign_tasks init_loads
distribute_balanced now loads tasks [] = (loads, no_workers)
distribute_balanced now loads tasks (worker ∷ workers) =
    let (loads', done) =
      assign_tasks now (worker ∷ workers) tasks (init_loads loads (worker ∷ workers), []) in
    (loads', assigned done)

-- RoundRobinDistributor: `workers[int(index) % len(workers)]`. Go's remainder has the sign of the
-- index, and a negative one panics.
unfoldable pub worker_at : ℤ → List String → Option String
worker_at (pos n) workers = get_elem? workers (n % length workers)
worker_at (negsuc n) workers = if (suc n % length workers) == 0 then get_elem? workers 0 else none

unfoldable pub rotate_tasks :
    Instant → List String → ℤ → List ResearchTask → List TaskAssignment → ℤ × Distribution
unfolding worker_at
rotate_tasks now workers next_index [] done = (next_index, assigned done)
rotate_tasks now workers next_index (task ∷ tasks) done =
    let index = int32 (next_index +ℤ pos 1) in
    elim (worker_at index workers) [
      | none ↦ (index, index_panic)
      | some worker ↦
          rotate_tasks now workers index tasks (done ++ assignment now task worker float_one ∷ [])
    ]

unfoldable pub distribute_round_robin :
    Instant → ℤ → List ResearchTask → List String → ℤ × Distribution
unfolding rotate_tasks
distribute_round_robin now next_index tasks [] = (next_index, no_workers)
distribute_round_robin now next_index tasks (worker ∷ workers) =
    rotate_tasks now (worker ∷ workers) next_index tasks []
