-- ===== src/Researcher/Active.antt =====
-- The active tasks of the researcher pool in every interleaving.
use open_research_agent.Base.{
  ◌+◌, ◌^◌, ◌<◌, ◌≡◌, refl, ap, subst, List, [], ◌∷◌, ℤ, int64, arith, some, none, Option, eq_iff,
  eq_refl, length, count_if, Instant,
}
use open_research_agent.Base.GoMap.{lookup, erase-IsMap, lookup-erase}
use open_research_agent.Domain.{ResearchResult}
use open_research_agent.Pool.{WorkerPoolConfig, take_at}
use open_research_agent.Researcher.Tracker.{TaskTracking, track_task_completion, complete_active}
use open_research_agent.Researcher.Pool.{
  ResearcherPool, new_researcher_pool, moved, forward, Action, starts, stops, submits, sends,
  gives_up, abandons, receives, delivers, forwards, passes_on, consumes, advance,
}
use open_research_agent.Researcher.Leaks.{
  length-erase, has_id, result_has_id, Leaks, Leads, IsFresh, take_at-Picked, start-Leaks,
  stop-Leaks, submit-Leaks, send-Leaks, give_up-Leaks, pass_on-Leaks, consume-Leaks, receive-Leaks,
  deliver-Leaks, abandon-Leaks,
}

module _ (unix : Instant → ℤ) where
  -- A result on its way has its task among the active ones.
  complete_active-Leaks :
      (now : Instant) (result : ResearchResult) (others : List ResearchResult)
      (o : Option TaskTracking) (p : ResearcherPool)
      → Leaks p
      → length p.task_tracker.active_tasks + 1 < 2 ^ 63
      → p.worker_results ≡ result ∷ others
      → lookup result.task_id p.task_tracker.active_tasks ≡ o
      → Leaks (record p {
        worker_results = others;
        forwarding = some result;
        task_tracker = complete_active unix now o result.task_id p.task_tracker;
      })
  unfolding complete_active int64
  complete_active-Leaks now result others none p v room e l =
      let bad : ⊥ = ground (
        arith,
        v.traced result.task_id,
        l,
        ap (λ rs. count_if (result_has_id result.task_id) rs) e,
        eq_refl result.task_id,
      ) in
      absurd bad
  complete_active-Leaks now result others (some tracking) p v room e l = record {
    failed_zero = v.failed_zero;
    processing =
        ground (arith, v.processing, v.active, ap (λ (rs : List ResearchResult). length rs) e);
    active = omega (
      arith,
      v.active,
      ap (λ (rs : List ResearchResult). length rs) e,
      length-erase result.task_id tracking p.task_tracker.active_tasks l,
    );
    is_map = erase-IsMap result.task_id p.task_tracker.active_tasks v.is_map;
    traced = λ id. ground (
      arith,
      v.traced id,
      l,
      ap (λ rs. count_if (result_has_id id) rs) e,
      eq_iff result.task_id id,
      lookup-erase result.task_id id p.task_tracker.active_tasks v.is_map,
    );
  }

  forward-Leaks :
      (now : Instant) (held : Option ResearchResult) (waiting : List ResearchResult)
      (p : ResearcherPool)
      → Leaks p
      → length p.task_tracker.active_tasks + 1 < 2 ^ 63
      → p.worker_results ≡ waiting
      → Leads Leaks (forward unix now held waiting p)
  unfolding forward track_task_completion
  forward-Leaks now (some result) waiting p v room e = tt
  forward-Leaks now none [] p v room e = tt
  forward-Leaks now none (result ∷ others) p v room e =
      complete_active-Leaks now result others _ p v room e refl

  abbrev pub IsFreshFor : Action unix → ResearcherPool → Type 0
  IsFreshFor (receives now worker_id) p = IsFresh p.task_queue p.task_tracker
  IsFreshFor _ p = Unit

  advance-Leaks :
      (a : Action unix) (p : ResearcherPool)
      → Leaks p
      → length p.task_tracker.active_tasks + 1 < 2 ^ 63
      → IsFreshFor a p
      → Leads Leaks (advance unix a p)
  unfolding advance
  advance-Leaks starts p v room fresh = start-Leaks p v
  advance-Leaks stops p v room fresh = stop-Leaks p v
  advance-Leaks (submits task) p v room fresh = submit-Leaks task p v
  advance-Leaks (sends i) p v room fresh = send-Leaks (take_at i p.submitting) p v
  advance-Leaks (gives_up i) p v room fresh = give_up-Leaks (take_at i p.submitting) p v
  advance-Leaks (abandons i) p v room fresh =
      abandon-Leaks (take_at i p.in_hand) p v (λ id. take_at-Picked (has_id id) i p.in_hand)
  advance-Leaks (receives now worker_id) p v room fresh =
      receive-Leaks now worker_id p.task_queue p v room fresh
  advance-Leaks (delivers result i) p v room fresh =
      deliver-Leaks result (take_at i p.in_hand) p v (λ id. take_at-Picked (has_id id) i p.in_hand)
  advance-Leaks (forwards now) p v room fresh =
      forward-Leaks now p.forwarding p.worker_results p v room refl
  advance-Leaks passes_on p v room fresh = pass_on-Leaks p.forwarding p v
  advance-Leaks consumes p v room fresh = consume-Leaks p.consumer_results p v

  -- The pools that an interleaving leads to, in which the task that a worker receives is not active
  -- already and fewer than 2^63 tasks are active.
  pub data Reach (p : ResearcherPool) : ResearcherPool → Type 0 where
    at_first : Reach p p
    then_by :
        {q r : ResearcherPool} (a : Action unix)
        → Reach p q
        → length q.task_tracker.active_tasks + 1 < 2 ^ 63
        → IsFreshFor a q
        → advance unix a q ≡ moved r
        → Reach p r

  Reach-keeps : {p q : ResearcherPool} → Reach p q → Leaks p → Leaks q
  Reach-keeps at_first v = v
  Reach-keeps (then_by {q = before} a r room fresh e) v =
      subst (Leads Leaks) e (advance-Leaks a before (Reach-keeps r v) room fresh)

  new_researcher_pool-Leaks : (cfg : WorkerPoolConfig) → Leaks (new_researcher_pool cfg)
  unfolding lookup
  new_researcher_pool-Leaks cfg = record {
    failed_zero = refl;
    processing = refl;
    active = refl;
    is_map = tt;
    traced = λ id. refl;
  }

  -- In every interleaving of a new pool in which tasks have different identifiers, a task is listed as
  -- active exactly when a worker has it in hand, its result waits to be forwarded, or it has failed,
  -- and tasks_processing is the number of these: a failed task stays active for ever, and
  -- tasks_failed stays 0, because nothing calls the error callback that the pool sets.
  pub failed_tasks_leak :
      (cfg : WorkerPoolConfig) (q : ResearcherPool) → Reach (new_researcher_pool cfg) q → Leaks q
  failed_tasks_leak cfg q r = Reach-keeps r (new_researcher_pool-Leaks cfg)
