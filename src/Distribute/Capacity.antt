-- ===== src/Distribute/Capacity.antt =====
-- The cost-based distributor, pkg/workflow/supervisor.go. `sort.Slice` and the float operations are
-- parameters.
use open_research_agent.Base.{
  float_1_5, float_two, int64-suc_pos, count_if-append, float_three, ℕ, ◌+◌, ◌≤◌, ◌≡◌, refl, inl,
  inr, List, [], ◌∷◌, ◌++◌, Bool, true, false, Bool-cases, ℤ, pos, ◌+ℤ◌, leb_ℤ, int64, arith, some,
  none, String, str_eq, eq_iff, if◌then◌else◌, count_if, Float64, FloatOps, float_one, Instant,
}
use open_research_agent.Base.GoMap.{lookup, insert, lookup-insert}
use open_research_agent.Domain.{ResearchTask}
use open_research_agent.Distribute.{TaskAssignment, Distribution, assigned, no_workers, assignment}

pub record CostPair : Type 0 where
  pub task : ResearchTask
  pub worker : String
  pub cost : Float64

-- The state of the loop over the sorted pairs: the two maps that it makes, the distributor's costs
-- of workers, and the assignments.
pub record Allotment : Type 0 where
  pub assigned_tasks : List (String × Bool)
  pub assigned_workers : List (String × ℤ)
  pub worker_costs : List (String × Float64)
  pub assignments : List TaskAssignment

-- A missing entry reads as false, and as 0.
unfoldable pub is_assigned : Allotment → String → Bool
is_assigned a task_id = elim (lookup task_id a.assigned_tasks) [ none ↦ false | some b ↦ b ]

unfoldable pub tasks_of : Allotment → String → ℤ
tasks_of a worker = elim (lookup worker a.assigned_workers) [ none ↦ pos 0 | some n ↦ n ]

abbrev start_allotment : List (String × Float64) → Allotment
start_allotment costs = record {
  assigned_tasks = [];
  assigned_workers = [];
  worker_costs = costs;
  assignments = [];
}

module _ (float : FloatOps) where
  unfoldable pub estimate_task_cost : ResearchTask → Float64
  estimate_task_cost task =
      let by_priority =
        if leb_ℤ task.priority (pos 2)
        then float.mul float_one float_three
        else if leb_ℤ task.priority (pos 5)
        then float.mul float_one float_two
        else float_one in
      if str_eq task.parent_id "" then by_priority else float.mul by_priority float_1_5

  unfoldable pub get_worker_cost : List (String × Float64) → String → Float64
  get_worker_cost costs worker = elim (lookup worker costs) [ none ↦ float_one | some c ↦ c ]

  unfoldable pub pairs_of : List (String × Float64) → ResearchTask → List String → List CostPair
  pairs_of costs task [] = []
  pairs_of costs task (worker ∷ workers) =
      record {
        task = task;
        worker = worker;
        cost = float.add (estimate_task_cost task) (get_worker_cost costs worker);
      }
      ∷ pairs_of costs task workers

  unfoldable pub all_pairs :
      List (String × Float64) → List ResearchTask → List String → List CostPair
  unfolding pairs_of
  all_pairs costs [] workers = []
  all_pairs costs (task ∷ tasks) workers =
      pairs_of costs task workers ++ all_pairs costs tasks workers

  unfoldable pub place : Instant → Allotment → CostPair → Allotment
  unfolding tasks_of
  place now a pair = record {
    assigned_tasks = insert pair.task.id true a.assigned_tasks;
    assigned_workers =
        insert pair.worker (int64 (tasks_of a pair.worker +ℤ pos 1)) a.assigned_workers;
    worker_costs = insert pair.worker pair.cost a.worker_costs;
    assignments =
        a.assignments ++ assignment now pair.task pair.worker (float.div float_one pair.cost) ∷ [];
  }

  -- The body of the loop over the pairs, with its two `continue`s.
  unfoldable pub take_pair : Instant → Allotment → CostPair → Allotment
  unfolding is_assigned tasks_of place
  take_pair now a pair =
      if is_assigned a pair.task.id
      then a
      else if leb_ℤ (pos 3) (tasks_of a pair.worker)
      then a
      else place now a pair

  unfoldable pub take_pairs : Instant → Allotment → List CostPair → Allotment
  unfolding take_pair
  take_pairs now a [] = a
  take_pairs now a (pair ∷ pairs) = take_pairs now (take_pair now a pair) pairs

  module _ (sort_slice : (CostPair → CostPair → Bool) → List CostPair → List CostPair) where
    unfoldable pub distribute_by_cost :
        Instant
        → List (String × Float64)
        → List ResearchTask
        → List String
        → List (String × Float64) × Distribution
    unfolding take_pairs all_pairs
    distribute_by_cost now costs tasks [] = (costs, no_workers)
    distribute_by_cost now costs tasks (worker ∷ workers) =
        let sorted =
          sort_slice (λ p q. float.lt p.cost q.cost) (all_pairs costs tasks (worker ∷ workers)) in
        let a = take_pairs now (start_allotment costs) sorted in
        (a.worker_costs, assigned a.assignments)

-- How many assignments a worker has, and a task.
abbrev pub to_worker : String → List TaskAssignment → ℕ
to_worker worker = count_if (λ a. str_eq a.worker_id worker)

abbrev pub of_task : String → List TaskAssignment → ℕ
of_task task_id = count_if (λ a. str_eq a.task.id task_id)

-- The maps agree with the assignments, and no worker has more than three.
record Agrees (a : Allotment) : Type 0 where
  workers_counted : (w : String) → tasks_of a w ≡ pos (to_worker w a.assignments)
  workers_few : (w : String) → to_worker w a.assignments ≤ 3
  tasks_once : (t : String) → of_task t a.assignments ≡ (if is_assigned a t then 1 else 0)

tasks_of-place :
    (float : FloatOps) (now : ℕ) (a : Allotment) (pair : CostPair) (w : String)
    → tasks_of (place float now a pair) w
      ≡ (if str_eq pair.worker w then int64 (tasks_of a pair.worker +ℤ pos 1) else tasks_of a w)
unfolding place tasks_of
tasks_of-place float now a pair w = ground (
  arith,
  lookup-insert pair.worker w (int64 (tasks_of a pair.worker +ℤ pos 1)) a.assigned_workers,
)

is_assigned-place :
    (float : FloatOps) (now : ℕ) (a : Allotment) (pair : CostPair) (t : String)
    → is_assigned (place float now a pair) t
      ≡ (if str_eq pair.task.id t then true else is_assigned a t)
unfolding place is_assigned
is_assigned-place float now a pair t =
    ground (arith, lookup-insert pair.task.id t true a.assigned_tasks)

count-place :
    (float : FloatOps) (now : ℕ) (a : Allotment) (pair : CostPair) (p : TaskAssignment → Bool)
    → count_if p (place float now a pair).assignments
      ≡ count_if p a.assignments
        + (if p (assignment now pair.task pair.worker (float.div float_one pair.cost))
            then 1
            else 0)
unfolding place
count-place float now a pair p = omega (arith, count_if-append p a.assignments _)

place-Agrees :
    (float : FloatOps) (now : ℕ) (a : Allotment) (pair : CostPair)
    → is_assigned a pair.task.id ≡ false
    → leb_ℤ (pos 3) (tasks_of a pair.worker) ≡ false
    → Agrees a
    → Agrees (place float now a pair)
place-Agrees float now a pair new few v =
    let here = v.workers_counted pair.worker in
    let k = to_worker pair.worker a.assignments in
    record {
      workers_counted = λ w. ground (
        arith,
        here,
        v.workers_counted w,
        tasks_of-place float now a pair w,
        v.workers_few pair.worker,
        count-place float now a pair (λ b. str_eq b.worker_id w),
        int64-suc_pos k,
        eq_iff pair.worker w,
      );
      workers_few = λ w. ground (
        arith,
        here,
        v.workers_few w,
        count-place float now a pair (λ b. str_eq b.worker_id w),
        eq_iff pair.worker w,
      );
      tasks_once = λ t. ground (
        arith,
        v.tasks_once t,
        is_assigned-place float now a pair t,
        count-place float now a pair (λ b. str_eq b.task.id t),
        eq_iff pair.task.id t,
      );
    }

take_pair-Agrees :
    (float : FloatOps) (now : ℕ) (a : Allotment) (pair : CostPair)
    → Agrees a
    → Agrees (take_pair float now a pair)
unfolding take_pair
take_pair-Agrees float now a pair v = elim (Bool-cases (is_assigned a pair.task.id)) [
  | inl old ↦ rw old v
  | inr new ↦ elim (Bool-cases (leb_ℤ (pos 3) (tasks_of a pair.worker))) [
    | inl full ↦ rw (new, full) v
    | inr few ↦ rw (new, few) (place-Agrees float now a pair new few v)
  ]
]

take_pairs-Agrees :
    (float : FloatOps) (now : ℕ) (a : Allotment) (pairs : List CostPair)
    → Agrees a
    → Agrees (take_pairs float now a pairs)
unfolding take_pairs
take_pairs-Agrees float now a [] v = v
take_pairs-Agrees float now a (pair ∷ pairs) v =
    take_pairs-Agrees float now (take_pair float now a pair) pairs
      (take_pair-Agrees float now a pair v)

start-Agrees : (costs : List (String × Float64)) → Agrees (start_allotment costs)
unfolding is_assigned tasks_of lookup
start-Agrees costs = record {
  workers_counted = λ w. refl;
  workers_few = λ w. omega arith;
  tasks_once = λ t. refl;
}

-- However `sort.Slice` orders the pairs, and whatever the costs are, no worker gets more than three
-- tasks of one distribution, and no task is assigned twice.
pub distribute_by_cost_capacity :
    (float : FloatOps) (sort_slice : (CostPair → CostPair → Bool) → List CostPair → List CostPair)
    (now : ℕ) (costs : List (String × Float64)) (tasks : List ResearchTask) (first : String)
    (workers : List String) (name : String)
    → (done : List TaskAssignment) × ((distribute_by_cost float sort_slice now costs tasks
          (first ∷ workers)).1
        ≡ assigned done)
      × (to_worker name done ≤ 3)
      × (of_task name done ≤ 1)
unfolding distribute_by_cost
distribute_by_cost_capacity float sort_slice now costs tasks first workers name =
    let sorted =
      sort_slice (λ p q. float.lt p.cost q.cost) (all_pairs float costs tasks (first ∷ workers)) in
    let v = take_pairs-Agrees float now (start_allotment costs) sorted (start-Agrees costs) in
    (_, refl, v.workers_few name, ground (arith, v.tasks_once name))
