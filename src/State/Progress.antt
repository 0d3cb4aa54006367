-- ===== src/State/Progress.antt =====
-- The counts of `GetTaskStats` and the end of the research, pkg/state/state.go.
use open_research_agent.Base.{
  ℕ, ◌+◌, ◌^◌, ◌≤◌, ◌<◌, ◌≡◌, refl, sym, ap, ◌∙◌, ◌⊎◌, ◌↔◌, List, [], ◌∷◌, Bool, true, false, pos,
  ◌≤ℤ◌, int64_id, int64-suc_pos, arith, String, if◌then◌else◌, length, count_if,
}
use open_research_agent.Domain.{
  TaskStatus, ResearchTask, TaskSummary, pending, in_progress, completed, failed, other_status,
  is_pending, is_in_progress, is_completed, is_failed,
}
use open_research_agent.State.{
  GraphState, count_tasks, get_task_stats, count_status, all_settled, research_complete,
}

abbrev pub with_status : (TaskStatus → Bool) → List (String × ResearchTask) → ℕ
with_status p = count_if (λ entry. p entry.1.status)

-- A status of no constant of the source.
abbrev pub is_other : TaskStatus → Bool
is_other (other_status _) = true
is_other _ = false

-- The four counters stand at these numbers.
record Counts (t : TaskSummary) (a b c d : ℕ) : Type 0 where
  pending_count : t.pending ≡ pos a
  in_progress_count : t.in_progress ≡ pos b
  completed_count : t.completed ≡ pos c
  failed_count : t.failed ≡ pos d

abbrev one_if : Bool → ℕ
one_if b = if b then 1 else 0

count_status-Counts :
    (s : TaskStatus) (t : TaskSummary) (a b c d : ℕ)
    → a + 1 < 2 ^ 63
    → b + 1 < 2 ^ 63
    → c + 1 < 2 ^ 63
    → d + 1 < 2 ^ 63
    → Counts t a b c d
    → Counts
        (count_status s t)
        (a + one_if (is_pending s))
        (b + one_if (is_in_progress s))
        (c + one_if (is_completed s))
        (d + one_if (is_failed s))
unfolding count_status
count_status-Counts pending t a b c d ha hb hc hd v = ground (arith, int64-suc_pos a)
count_status-Counts in_progress t a b c d ha hb hc hd v = ground (arith, int64-suc_pos b)
count_status-Counts completed t a b c d ha hb hc hd v = ground (arith, int64-suc_pos c)
count_status-Counts failed t a b c d ha hb hc hd v = ground (arith, int64-suc_pos d)
count_status-Counts (other_status x) t a b c d ha hb hc hd v = ground arith

total-count_status : (s : TaskStatus) (t : TaskSummary) → (count_status s t).total ≡ t.total
unfolding count_status
total-count_status s t = ground arith

total-count_tasks :
    (tasks : List (String × ResearchTask)) (t : TaskSummary) → (count_tasks tasks t).total ≡ t.total
unfolding count_tasks
total-count_tasks [] t = refl
total-count_tasks ((k, task) ∷ tasks) t =
    total-count_tasks tasks (count_status task.status t) ∙ total-count_status task.status t

-- The loop, from counters that have room for the tasks that are left.
count_tasks-Counts :
    (tasks : List (String × ResearchTask)) (t : TaskSummary) (a b c d : ℕ)
    → a + length tasks < 2 ^ 63
    → b + length tasks < 2 ^ 63
    → c + length tasks < 2 ^ 63
    → d + length tasks < 2 ^ 63
    → Counts t a b c d
    → Counts
        (count_tasks tasks t)
        (a + with_status is_pending tasks)
        (b + with_status is_in_progress tasks)
        (c + with_status is_completed tasks)
        (d + with_status is_failed tasks)
unfolding count_tasks
count_tasks-Counts [] t a b c d ha hb hc hd v = ground arith
count_tasks-Counts ((k, task) ∷ tasks) t a b c d ha hb hc hd v =
    let s = task.status in
    let step =
      count_status-Counts s t a b c d (omega arith) (omega arith) (omega arith) (omega arith) v in
    let rest =
      count_tasks-Counts tasks (count_status s t) (a + one_if (is_pending s))
        (b + one_if (is_in_progress s)) (c + one_if (is_completed s)) (d + one_if (is_failed s))
        (ground arith) (ground arith) (ground arith) (ground arith) step in
    record {
      pending_count = rest.pending_count ∙ ap pos (omega arith);
      in_progress_count = rest.in_progress_count ∙ ap pos (omega arith);
      completed_count = rest.completed_count ∙ ap pos (omega arith);
      failed_count = rest.failed_count ∙ ap pos (omega arith);
    }

partition :
    (tasks : List (String × ResearchTask))
    → with_status is_pending tasks
        + with_status is_in_progress tasks
        + with_status is_completed tasks
        + with_status is_failed tasks
        + with_status is_other tasks
      ≡ length tasks
partition [] = omega arith
partition ((k, task) ∷ tasks) = ground (arith, partition tasks)

-- Each count of `GetTaskStats` is the number of tasks of that status, the total is the number of
-- all, and the counts add up to it but for the tasks of a status that the source does not name. A
-- map has fewer than 2^63 tasks.
pub get_task_stats_counts :
    (s : GraphState)
    → length s.tasks < 2 ^ 63
    → let t = get_task_stats s in
      let n = λ (p : TaskStatus → Bool). with_status p s.tasks in
      (t.pending ≡ pos (n is_pending))
      × (t.in_progress ≡ pos (n is_in_progress))
      × (t.completed ≡ pos (n is_completed))
      × (t.failed ≡ pos (n is_failed))
      × (t.total
          ≡ pos (n is_pending + n is_in_progress + n is_completed + n is_failed + n is_other))
unfolding get_task_stats
get_task_stats_counts s h =
    let counts =
      count_tasks-Counts s.tasks _ 0 0 0 0 (omega arith) (omega arith) (omega arith) (omega arith)
        (record {
          pending_count = refl;
          in_progress_count = refl;
          completed_count = refl;
          failed_count = refl;
        }) in
    (
      counts.pending_count ∙ ap pos (omega arith),
      counts.in_progress_count ∙ ap pos (omega arith),
      counts.completed_count ∙ ap pos (omega arith),
      counts.failed_count ∙ ap pos (omega arith),
      total-count_tasks s.tasks _ ∙ int64_id _ (h, omega arith) ∙ ap pos (sym (partition s.tasks)),
    )

all_settled_iff :
    (tasks : List (String × ResearchTask))
    → (all_settled tasks ≡ true)
      ↔ (with_status is_pending tasks + with_status is_in_progress tasks ≡ 0)
unfolding all_settled
all_settled_iff [] = (λ h. omega arith, λ h. refl)
all_settled_iff ((k, task) ∷ tasks) =
    (λ h. ground (arith, (all_settled_iff tasks).0), λ h. ground (arith, (all_settled_iff tasks).1))

-- The research is complete exactly when the statistics show no task pending and none in progress,
-- and there are three results or the iterations are used up: `ResearchComplete` and the test that
-- the supervisor node makes on `GetTaskStats` agree.
pub research_complete_iff :
    (s : GraphState)
    → length s.tasks < 2 ^ 63
    → (research_complete s ≡ true) ↔ (
        ((get_task_stats s).pending ≡ pos 0)
        × ((get_task_stats s).in_progress ≡ pos 0)
        × ((3 ≤ length s.results) ⊎ (s.max_iterations ≤ℤ s.iterations)))
unfolding research_complete
research_complete_iff s h =
    let counts = get_task_stats_counts s h in
    let settled = all_settled_iff s.tasks in
    (λ c. ground (arith, settled.0), λ c. ground (arith, settled.1))
