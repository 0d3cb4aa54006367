-- ===== src/Graph/Pooled.antt =====
-- The research loop with a worker pool and a supervisor, pkg/workflow/graph.go. Workers run beside it:
-- `workers i` is what they do to the tasks of the state before round `i`. A round takes the answer of
-- the distributor in use, the order of the prioritizer and the ranges over maps as arguments.
use open_research_agent.Base.{
  [], ◌∷◌, Bool, ℕ, zero, suc, ◌+◌, ◌≡◌, List, ◌++◌, map, ◌&&◌, pos, leb_ℤ, eqb_ℤ, String,
  if◌then◌else◌, FloatOps, Instant,
}
use open_research_agent.Domain.{ResearchTask, compression}
use open_research_agent.State.{
  GraphState, set_phase, get_phase, get_task_stats, increment_iteration,
}
use open_research_agent.State.Pending.{get_pending_tasks}
use open_research_agent.Distribute.{Distribution, TaskAssignment, assigned}
use open_research_agent.Supervisor.{
  Supervisor, Distributed, distributed, distribution_failed, distribution_panicked,
  distribute_tasks,
}
use open_research_agent.Supervisor.Rebalance.{
  Ranges, rebalance_tasks, Switch, to_round_robin, to_cost_based, no_switch, adapt_strategy,
}
use open_research_agent.Graph.Nodes.{is_compression}

-- The state, the supervisor, the distributor that it has switched to, and the tasks that were handed
-- to the pool's `Submit`, the latest round first.
pub record PooledRun : Type 0 where
  pub state : GraphState
  pub supervisor : Supervisor
  pub strategy : Switch
  pub submitted : List ResearchTask

pub data PooledResult : Type 0 where
  pooled_done pooled_failed pooled_panicked : PooledRun → PooledResult

abbrev pub switched : Switch → Switch → Switch
switched old no_switch = old
switched old to_round_robin = to_round_robin
switched old to_cost_based = to_cost_based

-- What a round meets.
pub record Round : Type 0 where
  pub at : Instant
  pub prioritized : List ResearchTask → List ResearchTask
  pub distribution : Switch → List ResearchTask → Distribution
  pub ranges : Ranges
  pub worker_count : ℕ

-- How many of the tasks pass a test.
abbrev pub count_of : (ResearchTask → Bool) → List ResearchTask → ℕ
count_of test [] = 0
count_of test (task ∷ tasks) =
    let rest = count_of test tasks in if test task then suc rest else rest

module _ (float : FloatOps) where
  -- After the distribution: the strategy, the rebalancing and the iteration.
  unfoldable pub after_distribution : Round → PooledRun → Distributed → PooledResult
  unfolding adapt_strategy rebalance_tasks increment_iteration
  after_distribution round r (distributed sv tasks) = pooled_done (record {
    state = increment_iteration round.at r.state;
    supervisor = rebalance_tasks round.at round.ranges sv;
    strategy = switched r.strategy (adapt_strategy float round.worker_count sv);
    submitted = tasks ++ r.submitted;
  })
  after_distribution round r (distribution_failed sv) = pooled_failed (record r { supervisor = sv })
  after_distribution round r (distribution_panicked sv) =
      pooled_panicked (record r { supervisor = sv })

  -- The supervisor node with a supervisor and a pool.
  unfoldable pub pooled_supervisor_node : Round → PooledRun → PooledResult
  unfolding after_distribution distribute_tasks
  pooled_supervisor_node round r =
      let stats = get_task_stats r.state in
      let enough = record r { state = set_phase round.at compression r.state } in
      if leb_ℤ r.state.max_iterations r.state.iterations
      then pooled_done enough
      else if eqb_ℤ stats.pending (pos 0) && eqb_ℤ stats.in_progress (pos 0)
      then pooled_done enough
      else after_distribution round r (
          distribute_tasks round.prioritized (round.distribution r.strategy) round.at
            (get_pending_tasks r.state.tasks) r.supervisor)

  abbrev pub pooled_then : PooledResult → (PooledRun → PooledResult) → PooledResult
  pooled_then (pooled_done r) next = next r
  pooled_then (pooled_failed r) next = pooled_failed r
  pooled_then (pooled_panicked r) next = pooled_panicked r

  -- The rounds of `Execute`; the researcher node does nothing when there is a pool.
  unfoldable pub pooled_loop :
      (ℕ → Round)
      → (ℕ → List (String × ResearchTask) → List (String × ResearchTask))
      → ℕ
      → ℕ
      → PooledRun
      → PooledResult
  unfolding pooled_supervisor_node
  pooled_loop rounds workers zero i r = pooled_done r
  pooled_loop rounds workers (suc left) i r =
      pooled_then
        (pooled_supervisor_node (rounds i)
          (record r { state = record (r.state) { tasks = workers i r.state.tasks } }))
        (λ q.
          let rest = pooled_loop rounds workers left (suc i) q in
          if is_compression (get_phase q.state) then pooled_done q else rest)

  -- The distributor of a round gives every task to a worker, once.
  abbrev pub DistributesAll : Round → Type 0
  DistributesAll round =
      (strategy : Switch) (tasks : List ResearchTask)
      → (done : List TaskAssignment) × (round.distribution strategy (round.prioritized tasks)
          ≡ assigned done)
        × ((test : ResearchTask → Bool)
            → count_of test (map (λ a. a.task) done) ≡ count_of test tasks)

  abbrev pub times : ℕ → ℕ → ℕ
  times zero n = 0
  times (suc k) n = n + times k n

  -- The tasks are as they were, and what was handed to the pool is, task by task, `n` times the pending
  -- ones and what had been handed to it before: every test on tasks counts as many.
  pub record Submits (tasks : List (String × ResearchTask)) (n : ℕ) (before : List ResearchTask)
      (q : PooledRun) : Type 0 where
    pub tasks_kept : q.state.tasks ≡ tasks
    pub submissions :
        (test : ResearchTask → Bool)
        → count_of test q.submitted
          ≡ times n (count_of test (get_pending_tasks tasks)) + count_of test before
