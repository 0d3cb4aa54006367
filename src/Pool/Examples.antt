-- ===== src/Pool/Examples.antt =====
-- A pool of one worker whose task fails, and is submitted again.
use open_research_agent.Base.{
  ◌≡◌, refl, [], ◌∷◌, map, ℤ, pos, int64, int32, arith, none, All, String, List,
}
use open_research_agent.Domain.{ResearchTask, pending}
use open_research_agent.Pool.{
  WorkerPool, WorkerPoolConfig, WorkerTask, processing_failed, Outcome, moved, refused, panicked,
  starts, stops, receives, submits, sends, leaves_queue, begins, reports, finishes, resubmits,
  Action, advance, Reach, at_first, then_by, is_quiet, empty_pool, with_defaults, counts_queued,
  counts_depth,
}
use open_research_agent.Pool.Counts.{HasRoom, Counted, Reach-Counted, new_worker_pool-Counted}
use open_research_agent.Pool
use open_research_agent.Pool.Retries.{errors_never_sent, IsFresh}

abbrev small : WorkerPoolConfig
small = record { max_workers = pos 1; queue_size = pos 0; worker_timeout = pos 0 }

abbrev topic : ResearchTask
topic = record {
  id = "t";
  topic = "go";
  parent_id = "";
  status = pending;
  priority = pos 1;
  assigned_worker = "";
  results = [];
  created_at = 5;
  completed_at = none;
  metadata = [];
}

abbrev reached : Outcome → WorkerPool
reached (moved q) = q
reached _ = empty_pool small

abbrev fresh : WorkerPool
fresh = empty_pool (with_defaults small)

abbrev next : Action → WorkerPool → WorkerPool
next a p = reached (advance a p)

-- A pool after some actions, each of which it takes.
abbrev after : List Action → WorkerPool → WorkerPool
after [] p = p
after (a ∷ actions) p = after actions (next a p)

-- What each state before an action must allow.
abbrev Allows : List Action → WorkerPool → Type 0
Allows [] p = Unit
Allows (a ∷ actions) p = HasRoom p × (advance a p ≡ moved (next a p)) × Allows actions (next a p)

reached_after :
    (from : WorkerPool) (actions : List Action) (p : WorkerPool)
    → Reach HasRoom from p
    → Allows actions p
    → Reach HasRoom from (after actions p)
reached_after from [] p r h = r
reached_after from (a ∷ actions) p r h =
    reached_after from actions (next a p) (then_by a r h.0 h.1) h.2

abbrev to_work : List Action
to_work =
    starts
    ∷ starts
    ∷ starts
    ∷ starts
    ∷ submits 1 topic
    ∷ counts_queued 0
    ∷ counts_depth 0
    ∷ sends 0
    ∷ receives
    ∷ leaves_queue 0
    ∷ begins 0
    ∷ []

abbrev to_retry : List Action
to_retry =
    finishes 4 (processing_failed "no answer") 0
    ∷ reports 0
    ∷ resubmits 9 0
    ∷ counts_queued 0
    ∷ counts_depth 0
    ∷ sends 0
    ∷ []

abbrev working_pool : WorkerPool
working_pool = after to_work fresh

working_reached : Reach HasRoom fresh working_pool
unfolding advance Pool.start Pool.start_from Pool.submit Pool.count_queued Pool.count_depth
    Pool.send Pool.receive Pool.leave_queue Pool.begin with_defaults int32 int64
working_reached = reached_after fresh to_work fresh at_first ground arith

abbrev retried_pool : WorkerPool
retried_pool = after to_retry working_pool

retried_reached : Reach HasRoom fresh retried_pool
unfolding advance Pool.start Pool.start_from Pool.submit Pool.count_queued Pool.count_depth
    Pool.send Pool.receive Pool.leave_queue Pool.begin with_defaults int32 int64 Pool.finish
    Pool.report Pool.report_failure Pool.resubmit
retried_reached = reached_after fresh to_retry working_pool working_reached ground arith

Reach-Counted_example : Counted working_pool
Reach-Counted_example = Reach-Counted working_reached (new_worker_pool-Counted small)

errors_never_sent_example : (retried_pool.error_ch ≡ []) × All IsFresh retried_pool.working
errors_never_sent_example = errors_never_sent small HasRoom retried_pool retried_reached

-- The second submission has queued the task again, with no retries.
retried_queue :
    map {B = String × ℤ} (λ (t : WorkerTask). (t.task.id, t.retries)) retried_pool.task_queue
    ≡ ("t", pos 0) ∷ []
unfolding advance Pool.start Pool.start_from Pool.submit Pool.count_queued Pool.count_depth
    Pool.send Pool.receive Pool.leave_queue Pool.begin with_defaults int32 int64 Pool.finish
    Pool.report Pool.report_failure Pool.resubmit
retried_queue = refl
