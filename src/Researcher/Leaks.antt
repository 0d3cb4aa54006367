-- ===== src/Researcher/Leaks.antt =====
-- The active tasks of the researcher pool, and the failed ones among them.
use open_research_agent.Base.{
  any_of, ℕ, zero, suc, ◌+◌, ◌^◌, ◌<◌, ◌≡◌, refl, ap, List, [], ◌∷◌, ◌++◌, Bool, true, false, not,
  ℤ, pos, int64, arith, some, none, Option, String, str_eq, eq_iff, if◌then◌else◌, is_none, length,
  length-append, count_if, count_if-append, Instant,
}
use open_research_agent.Base.GoMap.{
  lookup, erase, IsMap, insert-IsMap, lookup-insert, length-insert,
}
use open_research_agent.Domain.{ResearchTask, ResearchResult}
use open_research_agent.Pool.{take_at, push_front}
use open_research_agent.Researcher.Tracker.{PoolTaskTracker, tracking_of, register_task_start}
use open_research_agent.Researcher.Pool.{
  is_held_by, InHand, ResearcherPool, has_space, Outcome, moved, refused, panicked, start, stop,
  submit, send, give_up, receive, deliver, abandon, pass_on, consume,
}

pub length-erase {ℓ} :
    {V : Type ℓ} (k : String) (v : V) (m : List (String × V))
    → lookup k m ≡ some v
    → length m ≡ suc (length (erase k m))
unfolding lookup erase
length-erase k v [] e = cc
length-erase k v ((j, w) ∷ m) e = ground (arith, length-erase k v m)

abbrev pub ones : Bool → ℕ
ones true = 1
ones false = 0

abbrev pub has_id : String → InHand → Bool
has_id id held = str_eq held.task.id id

abbrev pub result_has_id : String → ResearchResult → Bool
result_has_id id result = str_eq result.task_id id

-- How often a task stands in hand, among the results on their way, and among the failed.
abbrev pub traces : String → ResearcherPool → ℕ
traces id p =
    count_if (has_id id) p.in_hand
    + count_if (result_has_id id) p.worker_results
    + count_if (λ failed. str_eq failed id) p.failed_tasks

-- The tracker's view: a task is active exactly when it is in hand, has a result on its way, or has
-- failed, and each is at one of these places once; the counter of the tasks in processing counts them
-- all, and no failure is counted.
pub record Leaks (p : ResearcherPool) : Type 0 where
  pub failed_zero : p.task_tracker.metrics.tasks_failed ≡ pos 0
  pub processing :
      p.task_tracker.metrics.tasks_processing
      ≡ pos (length p.in_hand + length p.worker_results + length p.failed_tasks)
  pub active :
      length p.task_tracker.active_tasks
      ≡ length p.in_hand + length p.worker_results + length p.failed_tasks
  pub is_map : IsMap p.task_tracker.active_tasks
  pub traced :
      (id : String) → ones (not (is_none (lookup id p.task_tracker.active_tasks))) ≡ traces id p

abbrev pub Leads : (ResearcherPool → Type 0) → Outcome → Type 0
Leads P (moved q) = P q
Leads P refused = Unit
Leads P panicked = Unit

pub Leads-if :
    (P : ResearcherPool → Type 0) (b : Bool) (taken other : Outcome)
    → Leads P taken
    → Leads P other
    → Leads P (if b then taken else other)
Leads-if P true taken other h g = h
Leads-if P false taken other h g = g

-- The task that is received next is not active: tasks have different identifiers.
abbrev pub IsFresh : List ResearchTask → PoolTaskTracker → Type 0
IsFresh [] t = Unit
IsFresh (task ∷ tasks) t = lookup task.id t.active_tasks ≡ none

-- The fields that the view does not depend on.
renew :
    (running queue_closed results_closed : Bool) (submitting task_queue : List ResearchTask)
    (forwarding : Option ResearchResult) (consumer_results : List ResearchResult) (queued : ℤ)
    (p : ResearcherPool)
    → Leaks p
    → Leaks (record p {
      running = running;
      queue_closed = queue_closed;
      results_closed = results_closed;
      submitting = submitting;
      task_queue = task_queue;
      forwarding = forwarding;
      consumer_results = consumer_results;
      task_tracker = record p.task_tracker {
        metrics = record p.task_tracker.metrics { tasks_queued = queued };
      };
    })
renew _ _ _ _ _ _ _ _ p v = record {
  failed_zero = v.failed_zero;
  processing = v.processing;
  active = v.active;
  is_map = v.is_map;
  traced = v.traced;
}

pub start-Leaks : (p : ResearcherPool) → Leaks p → Leads Leaks (start p)
unfolding start
start-Leaks p v = Leads-if Leaks p.running refused _ tt (renew true _ _ _ _ _ _ _ p v)

pub stop-Leaks : (p : ResearcherPool) → Leaks p → Leads Leaks (stop p)
unfolding stop
stop-Leaks p v = Leads-if Leaks p.running _ refused (renew false true true _ _ _ _ _ p v) tt

pub submit-Leaks :
    (task : ResearchTask) (p : ResearcherPool) → Leaks p → Leads Leaks (submit task p)
unfolding submit
submit-Leaks task p v =
    Leads-if Leaks p.running _ refused (renew _ _ _ (task ∷ p.submitting) _ _ _ _ p v) tt

pub send-Leaks :
    (o : Option (ResearchTask × List ResearchTask)) (p : ResearcherPool)
    → Leaks p
    → Leads Leaks (send o p)
unfolding send
send-Leaks none p v = tt
send-Leaks (some (task, others)) p v = Leads-if Leaks p.queue_closed panicked _ tt (
    Leads-if Leaks (has_space p.config p.task_queue) _ refused
      (renew _ _ _ others (p.task_queue ++ task ∷ []) _ _ _ p v) tt)

pub give_up-Leaks :
    (o : Option (ResearchTask × List ResearchTask)) (p : ResearcherPool)
    → Leaks p
    → Leads Leaks (give_up o p)
unfolding give_up
give_up-Leaks none p v = tt
give_up-Leaks (some (task, others)) p v = renew _ _ _ others _ _ _ _ p v

pub pass_on-Leaks :
    (o : Option ResearchResult) (p : ResearcherPool) → Leaks p → Leads Leaks (pass_on o p)
unfolding pass_on
pass_on-Leaks none p v = tt
pass_on-Leaks (some result) p v =
    Leads-if Leaks (has_space p.config p.consumer_results) _ refused
      (renew _ _ _ _ _ none (p.consumer_results ++ result ∷ []) _ p v) tt

pub consume-Leaks :
    (results : List ResearchResult) (p : ResearcherPool) → Leaks p → Leads Leaks (consume results p)
unfolding consume
consume-Leaks [] p v = tt
consume-Leaks (result ∷ others) p v = renew _ _ _ _ _ _ others _ p v

received-Leaks :
    (now : Instant) (worker_id : String) (task : ResearchTask) (queue : List ResearchTask)
    (p : ResearcherPool)
    → Leaks p
    → length p.task_tracker.active_tasks + 1 < 2 ^ 63
    → lookup task.id p.task_tracker.active_tasks ≡ none
    → Leaks (record p {
      task_queue = queue;
      in_hand = record { task = task; worker_id = worker_id } ∷ p.in_hand;
      task_tracker = register_task_start now task worker_id p.task_tracker;
    })
unfolding register_task_start int64
received-Leaks now worker_id task queue p v room fresh = record {
  failed_zero = v.failed_zero;
  processing = ground (arith, v.processing, v.active);
  active = ground (
    arith,
    v.active,
    length-insert task.id (tracking_of now task worker_id) p.task_tracker.active_tasks,
  );
  is_map =
      insert-IsMap task.id (tracking_of now task worker_id) p.task_tracker.active_tasks v.is_map;
  traced = λ id. ground (
    arith,
    v.traced id,
    fresh,
    eq_iff task.id id,
    lookup-insert task.id id (tracking_of now task worker_id) p.task_tracker.active_tasks,
  );
}

pub receive-Leaks :
    (now : Instant) (worker_id : String) (queue : List ResearchTask) (p : ResearcherPool)
    → Leaks p
    → length p.task_tracker.active_tasks + 1 < 2 ^ 63
    → IsFresh queue p.task_tracker
    → Leads Leaks (receive now worker_id queue p)
unfolding receive
receive-Leaks now worker_id [] p v room fresh = tt
receive-Leaks now worker_id (task ∷ queue) p v room fresh =
    Leads-if Leaks (any_of (is_held_by worker_id) p.in_hand) refused _ tt
      (received-Leaks now worker_id task queue p v room fresh)

-- What a pick from a list leaves.
abbrev pub Picked {ℓ} : {A : Type ℓ} → (A → Bool) → List A → Option (A × List A) → Type 0
Picked f xs none = Unit
Picked f xs (some (x, others)) =
    (length xs ≡ suc (length others)) × (count_if f xs ≡ ones (f x) + count_if f others)

push_front-Picked {ℓ} :
    {A : Type ℓ} (f : A → Bool) (x : A) (xs : List A) (o : Option (A × List A))
    → Picked f xs o
    → Picked f (x ∷ xs) (push_front x o)
push_front-Picked f x xs none h = tt
push_front-Picked f x xs (some (y, others)) h = (ap suc h.0, omega (arith, h.1))

pub take_at-Picked {ℓ} :
    {A : Type ℓ} (f : A → Bool) (i : ℕ) (xs : List A) → Picked f xs (take_at i xs)
take_at-Picked f i [] = tt
take_at-Picked f zero (x ∷ xs) = (refl, ground arith)
take_at-Picked f (suc i) (x ∷ xs) = push_front-Picked f x xs (take_at i xs) (take_at-Picked f i xs)

abbrev delivered : ResearchResult → InHand → ResearchResult
delivered result held = record result { task_id = held.task.id }

delivered-Leaks :
    (result : ResearchResult) (held : InHand) (others : List InHand) (p : ResearcherPool)
    → Leaks p
    → ((id : String) → Picked (has_id id) p.in_hand (some (held, others)))
    → Leaks (record p {
      in_hand = others;
      worker_results = p.worker_results ++ delivered result held ∷ [];
    })
delivered-Leaks result held others p v h =
    let longer = length-append p.worker_results (delivered result held ∷ []) in
    record {
      failed_zero = v.failed_zero;
      processing = ground (arith, v.processing, (h "").0, longer);
      active = omega (arith, v.active, (h "").0, longer);
      is_map = v.is_map;
      traced = λ id. ground (
        arith,
        v.traced id,
        (h id).1,
        count_if-append (result_has_id id) p.worker_results (delivered result held ∷ []),
      );
    }

pub deliver-Leaks :
    (result : ResearchResult) (o : Option (InHand × List InHand)) (p : ResearcherPool)
    → Leaks p
    → ((id : String) → Picked (has_id id) p.in_hand o)
    → Leads Leaks (deliver result o p)
unfolding deliver
deliver-Leaks result none p v h = tt
deliver-Leaks result (some (held, others)) p v h = Leads-if Leaks p.results_closed panicked _ tt (
    Leads-if Leaks (has_space p.config p.worker_results) _ refused
      (delivered-Leaks result held others p v h) tt)

pub abandon-Leaks :
    (o : Option (InHand × List InHand)) (p : ResearcherPool)
    → Leaks p
    → ((id : String) → Picked (has_id id) p.in_hand o)
    → Leads Leaks (abandon o p)
unfolding abandon
abandon-Leaks none p v h = tt
abandon-Leaks (some (held, others)) p v h = record {
  failed_zero = v.failed_zero;
  processing = ground (arith, v.processing, (h "").0);
  active = omega (arith, v.active, (h "").0);
  is_map = v.is_map;
  traced = λ id. ground (arith, v.traced id, (h id).1);
}
