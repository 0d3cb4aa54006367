-- ===== src/Researcher/Dead.antt =====
-- A researcher worker after too many failures in a row.
use open_research_agent.Base.{
  ℕ, ◌≡◌, refl, ◌∙◌, List, [], ◌∷◌, Bool, true, false, ℤ, pos, ltb_ℤ, arith, Float64, FloatOps,
  Instant,
}
use open_research_agent.Researcher.Health.{
  WorkerHealthManager, passes_checks, ask_breaker, ask_healthy, may_execute, perform_health_check,
  get_health_status,
}
use open_research_agent.Researcher.Processor.{TaskProcessor, Visit, process_task, send_error}

-- What can happen to a worker but for `Reset`, which nothing calls: a task, a health check, with the
-- size of the heap, and a question for its status.
pub data Event : Type 0 where
  visited : Visit → Event
  checked : Instant → ℕ → Event
  asked_status asked_healthy : Instant → Event

abbrev pub has_given_up : WorkerHealthManager → Bool
has_given_up h = ltb_ℤ (pos 5) h.consecutive_fails

passes_checks-given_up :
    (now : ℕ) (h : WorkerHealthManager) → has_given_up h ≡ true → passes_checks now h ≡ false
unfolding passes_checks
passes_checks-given_up now h e = ground arith

ask_healthy-given_up :
    (now : ℕ) (h : WorkerHealthManager)
    → has_given_up h ≡ true
    → ((ask_healthy now h).1 ≡ false)
      × ((ask_healthy now h).0.consecutive_fails ≡ h.consecutive_fails)
unfolding ask_healthy ask_breaker
ask_healthy-given_up now h e = ground (arith, passes_checks-given_up now (ask_breaker now h).0)

may_execute-given_up :
    (now : ℕ) (h : WorkerHealthManager)
    → has_given_up h ≡ true
    → ((may_execute now h).1 ≡ false)
      × ((may_execute now h).0.consecutive_fails ≡ h.consecutive_fails)
unfolding may_execute
may_execute-given_up now h e = let (ill, same) = ask_healthy-given_up now h e in rw ill (refl, same)

module _ (float : FloatOps) (unix : Instant → ℤ) (to_uint64 : Float64 → ℕ) where
  unfoldable pub happen : Event → TaskProcessor → TaskProcessor
  happen (visited v) p = process_task float unix to_uint64 v p
  happen (checked now alloc) p = record p { health = perform_health_check now alloc p.health }
  happen (asked_status now) p = record p { health = (get_health_status now p.health).0 }
  happen (asked_healthy now) p = record p { health = (ask_healthy now p.health).0 }

  unfoldable pub happen_all : List Event → TaskProcessor → TaskProcessor
  unfolding happen
  happen_all [] p = p
  happen_all (e ∷ es) p = happen_all es (happen e p)

  -- `q` has the results and the counters of `p`, and has given up.
  pub record IsDeadAfter (p q : TaskProcessor) : Type 0 where
    pub given_up : has_given_up q.health ≡ true
    pub same_results : q.results ≡ p.results
    pub same_metrics : q.metrics ≡ p.metrics

  happen-IsDeadAfter :
      (e : Event) (p : TaskProcessor) → has_given_up p.health ≡ true → IsDeadAfter p (happen e p)
  unfolding happen process_task send_error perform_health_check get_health_status ask_breaker
  happen-IsDeadAfter (visited v) p e =
      let (refused, same) = may_execute-given_up v.started p.health e in
      rw refused (record { given_up = rw same e; same_results = refl; same_metrics = refl })
  happen-IsDeadAfter (checked now alloc) p e = record {
    given_up = e;
    same_results = refl;
    same_metrics = refl;
  }
  happen-IsDeadAfter (asked_status now) p e = record {
    given_up = e;
    same_results = refl;
    same_metrics = refl;
  }
  happen-IsDeadAfter (asked_healthy now) p e = record {
    given_up = rw (ask_healthy-given_up now p.health e).1 e;
    same_results = refl;
    same_metrics = refl;
  }

  -- After more than five failures in a row a worker refuses every task: whatever tasks, health checks
  -- and questions follow, it produces no result and counts no task, since only a success would reset
  -- the failures, and nothing in the program calls `Reset`.
  pub happen_all-IsDeadAfter :
      (es : List Event) (p : TaskProcessor)
      → has_given_up p.health ≡ true
      → IsDeadAfter p (happen_all es p)
  unfolding happen_all
  happen_all-IsDeadAfter [] p e = record { given_up = e; same_results = refl; same_metrics = refl }
  happen_all-IsDeadAfter (event ∷ es) p e =
      let one = happen-IsDeadAfter event p e in
      let more = happen_all-IsDeadAfter es (happen event p) one.given_up in
      record {
        given_up = more.given_up;
        same_results = more.same_results ∙ one.same_results;
        same_metrics = more.same_metrics ∙ one.same_metrics;
      }
