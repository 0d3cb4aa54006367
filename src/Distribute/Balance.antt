-- ===== src/Distribute/Balance.antt =====
-- The load-balanced distributor keeps the workers' loads level.
use open_research_agent.Base.{
  ℕ, suc, ◌+◌, ◌-◌, ◌^◌, ◌≤◌, ◌<◌, ◌≡◌, refl, sym, ap, ◌∙◌, subst, ◌⊎◌, inl, inr, List, [], ◌∷◌,
  ◌++◌, map, Bool-cases, ℤ, pos, pos_part, neg_part, ◌+ℤ◌, ◌≤ℤ◌, ◌<ℤ◌, ltb_ℤ, int32, arith, some,
  none, All, String, str_eq, eq_iff, if◌then◌else◌, is_none, length, All-map, All-zip, All-mem,
  All-append, float_one,
}
use mathlib.Core.List.{Memᴰ, append-nil, append_assoc, map-append}
use open_research_agent.Base.GoMap.{lookup, insert, lookup-insert}
use open_research_agent.Domain.{ResearchTask}
use open_research_agent.Distribute.{
  TaskAssignment, assigned, assignment, Loads, load_of, init_loads, Choice, choose_from, choose,
  assign_to, assign_tasks, distribute_balanced,
}

-- The loop found what it had, or a worker with the load that it noted.
abbrev Chosen : Loads → Choice → List String → Choice → Type 0
Chosen loads b workers c =
    (c ≡ b)
    ⊎ ((worker : String) × (c.selected_worker ≡ some worker)
        × Memᴰ worker workers
        × (c.min_load ≡ load_of loads worker)
        × (load_of loads worker <ℤ b.min_load))

abbrev better : Loads → Choice → String → Choice
better loads c worker =
    if ltb_ℤ (load_of loads worker) c.min_load
    then record { selected_worker = some worker; min_load = load_of loads worker }
    else c

Chosen-cons :
    (loads : Loads) (b c : Choice) (worker : String) (workers : List String)
    → Chosen loads (better loads b worker) workers c
    → Chosen loads b (worker ∷ workers) c
Chosen-cons loads b c worker workers (inl e) =
    elim (Bool-cases (ltb_ℤ (load_of loads worker) b.min_load)) [
      | inl less ↦ inr (worker, ground arith, Memᴰ.head refl, ground arith, ground arith)
      | inr more ↦ inl (ground arith)
    ]
Chosen-cons loads b c worker workers (inr (other, found, m, low, below)) =
    inr (other, found, Memᴰ.tail m, low, ground arith)

choose_from-Chosen :
    (loads : Loads) (b : Choice) (workers : List String)
    → Chosen loads b workers (choose_from loads b workers)
unfolding choose_from
choose_from-Chosen loads b [] = inl refl
choose_from-Chosen loads b (worker ∷ workers) =
    Chosen-cons loads b _ worker workers (choose_from-Chosen loads (better loads b worker) workers)

choose_from_least :
    (loads : Loads) (b : Choice) (workers : List String)
    → let low = (choose_from loads b workers).min_load in
      (low ≤ℤ b.min_load) × All (λ worker. low ≤ℤ load_of loads worker) workers
unfolding choose_from
choose_from_least loads b [] = (omega arith, tt)
choose_from_least loads b (worker ∷ workers) =
    let (low, all) = choose_from_least loads (better loads b worker) workers in
    (ground arith, (ground arith, all))

-- Each load is `m` or `m + 1`.
abbrev pub IsNear : ℕ → ℤ → Type 0
IsNear m load = (neg_part load ≡ 0) × (m ≤ pos_part load) × (pos_part load ≤ m + 1)

abbrev pub IsLevel : ℕ → Loads → List String → Type 0
IsLevel m loads workers = All (λ worker. IsNear m (load_of loads worker)) workers

-- On level loads that leave room below the largest int32, a worker of the least load is found.
choose_level :
    (loads : Loads) (workers : List String) (first : String) (m : ℕ)
    → m + 1 < 2 ^ 31 - 1
    → IsLevel m loads (first ∷ workers)
    → (worker : String) × ((choose loads (first ∷ workers)).selected_worker ≡ some worker)
      × Memᴰ worker (first ∷ workers)
      × All (λ other. load_of loads worker ≤ℤ load_of loads other) (first ∷ workers)
unfolding choose
choose_level loads workers first m h level =
    let begin : Choice = record { selected_worker = none; min_load = pos (2 ^ 31 - 1) } in
    let (_, least) = choose_from_least loads begin (first ∷ workers) in
    elim (choose_from-Chosen loads begin (first ∷ workers)) [
      | inl same ↦ absurd (ground (arith, ap (λ (c : Choice). c.min_load) same, least.0, level.0))
      | inr (worker, found, m, low, below) ↦ (
        worker,
        found,
        m,
        All-map _ (λ other. load_of loads worker ≤ℤ load_of loads other)
            (λ other l. ground (arith, l)) (first ∷ workers) least,
      )
    ]

load_of-insert :
    (loads : Loads) (worker other : String) (load : ℤ)
    → load_of (insert worker load loads) other
      ≡ (if str_eq worker other then load else load_of loads other)
unfolding load_of
load_of-insert loads worker other load = ground (arith, lookup-insert worker other load loads)

int32-suc :
    (a : ℤ) (n : ℕ)
    → neg_part a ≡ 0
    → pos_part a ≡ n
    → n + 1 < 2 ^ 31
    → int32 (a +ℤ pos 1) ≡ pos (n + 1)
unfolding int32
int32-suc a n p e h = ground arith

-- One more task for a worker of the least load keeps the loads level, about that least load.
assign_to-IsLevel :
    (now : ℕ) (task : ResearchTask) (worker : String) (loads : Loads) (done : List TaskAssignment)
    (workers : List String) (m : ℕ)
    → m + 2 < 2 ^ 31
    → Memᴰ worker workers
    → IsLevel m loads workers
    → All (λ other. load_of loads worker ≤ℤ load_of loads other) workers
    → (pos_part (load_of loads worker) ≤ m + 1)
      × IsLevel
          (pos_part (load_of loads worker))
          (assign_to now task (some worker) (loads, done)).0
          workers
unfolding assign_to
assign_to-IsLevel now task worker loads done workers m room at level least =
    let near = All-mem _ worker workers level at in
    let k = pos_part (load_of loads worker) in
    let more = int32-suc (load_of loads worker) k near.0 refl (omega arith) in
    (
      near.2,
      All-zip (λ other. IsNear m (load_of loads other))
          (λ other. load_of loads worker ≤ℤ load_of loads other) _
          (λ other n l. ground (
            arith,
            more,
            load_of-insert loads worker other (int32 (load_of loads worker +ℤ pos 1)),
          ))
          workers level least,
    )

-- Each task has one assignment, in the order of the tasks, to one of the workers.
pub record Covers (tasks : List ResearchTask) (workers : List String) (done : List TaskAssignment)
    : Type 0 where
  pub in_order : map (λ a. a.task) done ≡ tasks
  pub to_workers : All (λ a. Memᴰ a.worker_id workers) done

Covers-snoc :
    (now : ℕ) (tasks : List ResearchTask) (task : ResearchTask) (workers : List String)
    (done : List TaskAssignment) (worker : String)
    → Covers tasks workers done
    → Memᴰ worker workers
    → Covers (tasks ++ task ∷ []) workers (done ++ assignment now task worker float_one ∷ [])
Covers-snoc now tasks task workers done worker c m = record {
  in_order =
      map-append (λ (a : TaskAssignment). a.task) done _
      ∙ ap (λ (ts : List ResearchTask). ts ++ task ∷ []) c.in_order;
  to_workers = All-append _ done _ (c.to_workers, (m, tt));
}

-- How many of the assignments go to a worker.
abbrev pub assigned_to : String → List TaskAssignment → ℕ
assigned_to worker [] = 0
assigned_to worker (a ∷ done) =
    let rest = assigned_to worker done in if str_eq a.worker_id worker then suc rest else rest

assigned_to-snoc :
    (worker : String) (done : List TaskAssignment) (a : TaskAssignment)
    → assigned_to worker (done ++ a ∷ []) ≡ (
        if str_eq a.worker_id worker
        then suc (assigned_to worker done)
        else assigned_to worker done)
assigned_to-snoc worker [] a = refl
assigned_to-snoc worker (b ∷ done) a = ground (arith, assigned_to-snoc worker done a)

-- The load of every worker, whether it is a candidate or not, has grown by the assignments to it.
abbrev pub Tallies : Loads → Loads → List TaskAssignment → Type 0
Tallies before after done =
    (worker : String)
    → load_of after worker ≡ load_of before worker +ℤ pos (assigned_to worker done)

assign_to-Tallies :
    (now : ℕ) (task : ResearchTask) (worker : String) (before : Loads)
    (d : Loads × List TaskAssignment)
    → neg_part (load_of d.0 worker) ≡ 0
    → pos_part (load_of d.0 worker) + 1 < 2 ^ 31
    → Tallies before d.0 d.1
    → let d' = assign_to now task (some worker) d in Tallies before d'.0 d'.1
unfolding assign_to
assign_to-Tallies now task worker before d positive room t other =
    let load = load_of d.0 worker in
    ground (
      arith,
      int32-suc load (pos_part load) positive refl room,
      load_of-insert d.0 worker other (int32 (load +ℤ pos 1)),
      assigned_to-snoc other d.1 (assignment now task worker float_one),
      eq_iff worker other,
      t other,
      t worker,
    )

-- The loads are level and count the assignments, and the tasks are covered.
abbrev Spread : Loads → List String → List ResearchTask → Loads × List TaskAssignment → Type 0
Spread before workers tasks d =
    ((m : ℕ) × IsLevel m d.0 workers) × Covers tasks workers d.1 × Tallies before d.0 d.1

assign_tasks-cons :
    (now : ℕ) (workers : List String) (task : ResearchTask) (tasks : List ResearchTask)
    (d : Loads × List TaskAssignment) (worker : String)
    → (choose d.0 workers).selected_worker ≡ some worker
    → assign_tasks now workers (task ∷ tasks) d
      ≡ assign_tasks now workers tasks (assign_to now task (some worker) d)
unfolding assign_tasks
assign_tasks-cons now workers task tasks d worker found =
    ap (λ w. assign_tasks now workers tasks (assign_to now task w d)) found

assign_tasks-Spread :
    (now : ℕ) (first : String) (workers : List String) (tasks before : List ResearchTask)
    (loads : Loads) (d : Loads × List TaskAssignment) (m : ℕ)
    → m + length tasks + 1 < 2 ^ 31 - 1
    → IsLevel m d.0 (first ∷ workers)
    → Covers before (first ∷ workers) d.1
    → Tallies loads d.0 d.1
    → Spread loads (first ∷ workers) (before ++ tasks) (assign_tasks now (first ∷ workers) tasks d)
assign_tasks-Spread now first workers [] before loads d m room level c t =
    unfold assign_tasks in ((m, level), rw (append-nil before) c, t)
assign_tasks-Spread now first workers (task ∷ tasks) before loads d m room level c t =
    let (worker, found, at, least) = choose_level d.0 workers first m (omega arith) level in
    let (few, level') =
      assign_to-IsLevel now task worker d.0 d.1 (first ∷ workers) m (omega arith) at level least in
    let covered : Covers (before ++ task ∷ []) (first ∷ workers)
        (assign_to now task (some worker) d).1 =
      unfold assign_to in Covers-snoc now before task (first ∷ workers) d.1 worker c at in
    let near = All-mem _ worker (first ∷ workers) level at in
    let ih =
      assign_tasks-Spread now first workers tasks (before ++ task ∷ []) loads
        (assign_to now task (some worker) d) (pos_part (load_of d.0 worker)) (omega arith) level'
        covered
        (assign_to-Tallies now task worker loads d near.0 (omega (arith, near.2, room)) t) in
    subst (Spread loads (first ∷ workers) (before ++ task ∷ tasks))
      (sym (assign_tasks-cons now (first ∷ workers) task tasks d worker found))
      (rw (append_assoc before (task ∷ []) tasks) at ih)

load_of-init_loads :
    (loads : Loads) (workers : List String) (other : String)
    → load_of (init_loads loads workers) other ≡ load_of loads other
unfolding init_loads load_of
load_of-init_loads loads [] other = refl
load_of-init_loads loads (worker ∷ workers) other =
    load_of-init_loads
      (if is_none (lookup worker loads) then insert worker (pos 0) loads else loads) workers other
    ∙ ground (arith, lookup-insert worker other (pos 0) loads, eq_iff worker other)

-- From loads that differ by one at most, and that the tasks cannot raise to the largest int32, the
-- distributor gives every task to one of the workers, the load of each worker grows by the number of
-- the tasks given to it, and the loads again differ by one at most. A worker that the distributor has
-- not met has the load 0.
pub distribute_balanced-IsLevel :
    (now : ℕ) (loads : Loads) (tasks : List ResearchTask) (first : String) (workers : List String)
    (m : ℕ)
    → m + length tasks + 1 < 2 ^ 31 - 1
    → IsLevel m loads (first ∷ workers)
    → let (loads', d) = distribute_balanced now loads tasks (first ∷ workers) in
      ((m' : ℕ) × IsLevel m' loads' (first ∷ workers))
      × ((done : List TaskAssignment) × (d ≡ assigned done)
          × Covers tasks (first ∷ workers) done
          × Tallies loads loads' done)
unfolding distribute_balanced
distribute_balanced-IsLevel now loads tasks first workers m room level =
    let start = init_loads loads (first ∷ workers) in
    let level' : IsLevel m start (first ∷ workers) =
      All-map (λ w. IsNear m (load_of loads w)) (λ w. IsNear m (load_of start w))
        (λ w n. rw (load_of-init_loads loads (first ∷ workers) w) n) (first ∷ workers) level in
    let (level'', c, t) =
      assign_tasks-Spread now first workers tasks [] loads (start, []) m room level'
        (record { in_order = refl; to_workers = tt })
        (λ w. ground (arith, load_of-init_loads loads (first ∷ workers) w)) in
    (level'', (_, refl, c, t))
