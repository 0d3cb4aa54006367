-- ===== src/State/Pending.antt =====
-- The pending tasks of the state, pkg/state/state.go: `GetNextPendingTask` and `GetPendingTasks`.
-- `range` is the order in which the loop visits the task map.
use open_research_agent.Base.{
  ℕ, zero, suc, ◌≤◌, ◌≡◌, refl, ap, ◌⊎◌, inl, inr, ◌↔◌, List, [], ◌∷◌, true, ◌&&◌, Bool-cases, ℤ,
  pos, negsuc, ◌≤ℤ◌, ◌<ℤ◌, ltb_ℤ, arith, some, none, All, Option, String, if◌then◌else◌, length,
}
use mathlib.Core.List.Perm
use mathlib.Core.List.{Perm, Memᴰ, filter_map}
use open_research_agent.Domain.{TaskStatus, ResearchTask, pending, is_pending}
use open_research_agent.State.{GraphState}

-- The two variables of the loop of `GetNextPendingTask`.
pub record Best : Type 0 where
  pub next_task : Option ResearchTask
  pub highest_priority : ℤ

unfoldable pub scan_next : Best → List (String × ResearchTask) → Best
scan_next b [] = b
scan_next b ((k, task) ∷ range) =
    scan_next
      (if is_pending task.status && ltb_ℤ b.highest_priority task.priority
        then record { next_task = some task; highest_priority = task.priority }
        else b)
      range

unfoldable pub get_next_pending_task : List (String × ResearchTask) → Option ResearchTask
unfolding scan_next
get_next_pending_task range =
    (scan_next (record { next_task = none; highest_priority = negsuc 0 }) range).next_task

abbrev pub pending_task : String × ResearchTask → Option ResearchTask
pending_task (k, task) = if is_pending task.status then some task else none

-- The inner loop of the sort, for one `i`: `first` is the element at `i`, and the result is the
-- element that is left there with those that are left behind it.
unfoldable pub swap_pass : ResearchTask → List ResearchTask → ResearchTask × List ResearchTask
swap_pass first [] = (first, [])
swap_pass first (task ∷ tasks) =
    let swap = ltb_ℤ first.priority task.priority in
    let (top, behind) = swap_pass (if swap then task else first) tasks in
    (top, (if swap then first else task) ∷ behind)

-- The outer loop, by the number of rounds left.
unfoldable pub sort_rounds : ℕ → List ResearchTask → List ResearchTask
unfolding swap_pass
sort_rounds zero tasks = tasks
sort_rounds (suc n) [] = []
sort_rounds (suc n) (task ∷ tasks) =
    let (top, behind) = swap_pass task tasks in top ∷ sort_rounds n behind

unfoldable pub get_pending_tasks : List (String × ResearchTask) → List ResearchTask
unfolding sort_rounds filter_map
get_pending_tasks range =
    let pending_tasks = filter_map pending_task range in
    sort_rounds (length pending_tasks) pending_tasks

-- No element has a lower priority than one behind it.
abbrev pub IsDescending : List ResearchTask → Type 0
IsDescending [] = Unit
IsDescending (task ∷ tasks) =
    All (λ other. other.priority ≤ℤ task.priority) tasks × IsDescending tasks

swap_pass-perm :
    (first : ResearchTask) (tasks : List ResearchTask)
    → Perm ((swap_pass first tasks).0 ∷ (swap_pass first tasks).1) (first ∷ tasks)
unfolding swap_pass
swap_pass-perm first [] = Perm.refl _
swap_pass-perm first (task ∷ tasks) = elim (Bool-cases (ltb_ℤ first.priority task.priority)) [
  | inl e ↦ rw e (
      Perm.trans (Perm.swap first _ _)
        (Perm.trans (Perm.cons first (swap_pass-perm task tasks)) (Perm.refl _)))
  | inr e ↦ rw e (
      Perm.trans (Perm.swap task _ _)
        (Perm.trans (Perm.cons task (swap_pass-perm first tasks)) (Perm.swap first task tasks)))
]

-- The pass leaves a task of the highest priority in front.
swap_pass_top :
    (first : ResearchTask) (tasks : List ResearchTask)
    → (first.priority ≤ℤ (swap_pass first tasks).0.priority)
      × All
          (λ other. other.priority ≤ℤ (swap_pass first tasks).0.priority)
          (swap_pass first tasks).1
unfolding swap_pass
swap_pass_top first [] = (omega arith, tt)
swap_pass_top first (task ∷ tasks) =
    let (high, all) =
      swap_pass_top (if ltb_ℤ first.priority task.priority then task else first) tasks in
    (ground arith, (ground arith, all))

swap_pass-All {ℓ} :
    (P : ResearchTask → Type ℓ) (first : ResearchTask) (tasks : List ResearchTask)
    → P first
    → All P tasks
    → P (swap_pass first tasks).0 × All P (swap_pass first tasks).1
unfolding swap_pass
swap_pass-All P first [] p a = (p, tt)
swap_pass-All P first (task ∷ tasks) p a = elim (Bool-cases (ltb_ℤ first.priority task.priority)) [
  | inl e ↦ let (q, b) = swap_pass-All P task tasks a.0 a.1 in rw e (q, (p, b))
  | inr e ↦ let (q, b) = swap_pass-All P first tasks p a.1 in rw e (q, (a.0, b))
]

sort_rounds-All {ℓ} :
    (P : ResearchTask → Type ℓ) (n : ℕ) (tasks : List ResearchTask)
    → All P tasks
    → All P (sort_rounds n tasks)
unfolding sort_rounds
sort_rounds-All P zero tasks a = a
sort_rounds-All P (suc n) [] a = tt
sort_rounds-All P (suc n) (task ∷ tasks) a =
    let (q, b) = swap_pass-All P task tasks a.0 a.1 in (q, sort_rounds-All P n _ b)

length-swap_pass :
    (first : ResearchTask) (tasks : List ResearchTask)
    → length (swap_pass first tasks).1 ≡ length tasks
unfolding swap_pass
length-swap_pass first [] = refl
length-swap_pass first (task ∷ tasks) =
    ap suc (length-swap_pass (if ltb_ℤ first.priority task.priority then task else first) tasks)

sort_rounds-IsDescending :
    (n : ℕ) (tasks : List ResearchTask) → length tasks ≤ n → IsDescending (sort_rounds n tasks)
unfolding sort_rounds
sort_rounds-IsDescending zero [] h = tt
sort_rounds-IsDescending zero (task ∷ tasks) h = absurd (omega arith)
sort_rounds-IsDescending (suc n) [] h = tt
sort_rounds-IsDescending (suc n) (task ∷ tasks) h =
    let (high, all) = swap_pass_top task tasks in
    (
      sort_rounds-All _ n _ all,
      sort_rounds-IsDescending n _ (omega (arith, length-swap_pass task tasks)),
    )

sort_rounds-perm : (n : ℕ) (tasks : List ResearchTask) → Perm (sort_rounds n tasks) tasks
unfolding sort_rounds
sort_rounds-perm zero tasks = Perm.refl tasks
sort_rounds-perm (suc n) [] = Perm.refl []
sort_rounds-perm (suc n) (task ∷ tasks) =
    Perm.trans (Perm.cons _ (sort_rounds-perm n _)) (swap_pass-perm task tasks)

-- In whatever order the map is visited, `GetPendingTasks` returns its pending tasks, each as often
-- as it stands there, from the highest priority to the lowest.
pub get_pending_tasks_sorted :
    (s : GraphState) (range : List (String × ResearchTask))
    → Perm range s.tasks
    → IsDescending (get_pending_tasks range)
      × Perm (get_pending_tasks range) (filter_map pending_task s.tasks)
unfolding get_pending_tasks
get_pending_tasks_sorted s range p = (
  sort_rounds-IsDescending _ (filter_map pending_task range) (omega arith),
  Perm.trans (sort_rounds-perm _ (filter_map pending_task range)) (Perm.filter_map _ p),
)

-- What the loop of `GetNextPendingTask` has found, starting from `b`: it kept what it had, or it
-- has a pending task of the map, of the priority that it noted.
abbrev Found : Best → List (String × ResearchTask) → Best → Type 0
Found b range c =
    (c ≡ b)
    ⊎ ((k : String) × (task : ResearchTask) × (c.next_task ≡ some task)
        × (task.status ≡ pending)
        × Memᴰ (k, task) range
        × (c.highest_priority ≡ task.priority)
        × (b.highest_priority <ℤ task.priority))

is_pending_iff : (status : TaskStatus) → (is_pending status ≡ true) ↔ (status ≡ pending)
is_pending_iff status = (λ h. ground arith, λ h. ground arith)

abbrev take_better : Best → ResearchTask → Best
take_better b task =
    if is_pending task.status && ltb_ℤ b.highest_priority task.priority
    then record { next_task = some task; highest_priority = task.priority }
    else b

Found-cons :
    (b c : Best) (k : String) (task : ResearchTask) (range : List (String × ResearchTask))
    → Found (take_better b task) range c
    → Found b ((k, task) ∷ range) c
Found-cons b c k task range (inl e) =
    elim (Bool-cases (is_pending task.status && ltb_ℤ b.highest_priority task.priority)) [
      | inl better ↦
          inr (k, task, ground arith, ground arith, Memᴰ.head refl, ground arith, ground arith)
      | inr worse ↦ inl (ground arith)
    ]
Found-cons b c k task range (inr (j, found, same, is_open, m, high, above)) =
    inr (j, found, same, is_open, Memᴰ.tail m, high, ground arith)

scan_next-Found :
    (b : Best) (range : List (String × ResearchTask)) → Found b range (scan_next b range)
unfolding scan_next
scan_next-Found b [] = inl refl
scan_next-Found b ((k, task) ∷ range) =
    Found-cons b _ k task range (scan_next-Found (take_better b task) range)

-- The loop ends with a priority that no pending task exceeds.
scan_next_bound :
    (b : Best) (range : List (String × ResearchTask))
    → (b.highest_priority ≤ℤ (scan_next b range).highest_priority)
      × All
          (λ entry.
            entry.1.status ≡ pending → entry.1.priority ≤ℤ (scan_next b range).highest_priority)
          range
unfolding scan_next
scan_next_bound b [] = (omega arith, tt)
scan_next_bound b ((k, task) ∷ range) =
    let (high, all) = scan_next_bound (take_better b task) range in
    (ground arith, (λ h. ground arith, all))

All-pending :
    (limit : ℤ) (range : List (String × ResearchTask))
    → All (λ entry. entry.1.status ≡ pending → entry.1.priority ≤ℤ limit) range
    → All (λ task. task.priority ≤ℤ limit) (filter_map pending_task range)
unfolding filter_map
All-pending limit [] h = tt
All-pending limit ((k, task) ∷ range) h = elim (Bool-cases (is_pending task.status)) [
  | inl e ↦ rw e (h.0 ((is_pending_iff task.status).0 e), All-pending limit range h.1)
  | inr e ↦ rw e (All-pending limit range h.1)
]

-- `t` is a task to take next: it is pending, it is in the map, its priority is not negative, and no
-- pending task has a higher one. With no such task every pending task has a negative priority.
abbrev pub IsNext : List (String × ResearchTask) → Option ResearchTask → Type 0
IsNext range none = All (λ task. task.priority ≤ℤ negsuc 0) (filter_map pending_task range)
IsNext range (some t) =
    (t.status ≡ pending)
    × ((k : String) × Memᴰ (k, t) range)
    × (pos 0 ≤ℤ t.priority)
    × All (λ task. task.priority ≤ℤ t.priority) (filter_map pending_task range)

-- In whatever order the map is visited, `GetNextPendingTask` returns a pending task of the map of
-- the highest priority among the pending ones, which is not negative; or it returns none, and every
-- pending task has a negative priority.
pub get_next_pending_task-IsNext :
    (range : List (String × ResearchTask)) → IsNext range (get_next_pending_task range)
unfolding get_next_pending_task
get_next_pending_task-IsNext range =
    let start : Best = record { next_task = none; highest_priority = negsuc 0 } in
    let (_, all) = scan_next_bound start range in
    elim (scan_next-Found start range) [
      | inl same ↦
          rw (ap (λ (b : Best). b.next_task) same)
            (All-pending (negsuc 0) range (rw (ap (λ (b : Best). b.highest_priority) same) at all))
      | inr (k, task, found, is_open, m, high, above) ↦
          rw found (is_open, (k, m), ground arith, All-pending task.priority range (rw high at all))
    ]
