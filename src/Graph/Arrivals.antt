-- ===== src/Graph/Arrivals.antt =====
-- The goroutine that takes the results and errors of the worker pool, pkg/workflow/graph.go.
use open_research_agent.Base.{
  ℕ, suc, ◌+◌, ◌≡◌, refl, List, [], ◌∷◌, Bool, true, false, arith, some, none, Option,
  if◌then◌else◌, length,
}
use open_research_agent.Domain.{Bytes, ResearchResult}
use open_research_agent.Observability.{
  StructuredLogger, LogEntry, SpanContext, Logged, logged, log_panicked, debug, error, log,
  phrase_of,
}

-- What the `select` of the loop takes next. A closed channel gives nil.
pub data Arrival : Type 0 where
  result_arrived : Option ResearchResult → Arrival
  error_arrived : Option Bytes → Arrival
  context_done : Arrival

pub data LoopEnd : Type 0 where
  returned still_waiting : Option StructuredLogger → LoopEnd
  loop_panicked : LoopEnd

module _ (marshal : LogEntry → Option Bytes) (now : Bytes) (span : Option SpanContext) where
  abbrev pub after_log : Logged → (Option StructuredLogger → LoopEnd) → LoopEnd
  after_log (logged l given) next = next (some l)
  after_log log_panicked next = loop_panicked

  unfoldable pub log_result :
      Option StructuredLogger → ResearchResult → (Option StructuredLogger → LoopEnd) → LoopEnd
  unfolding debug
  log_result none result next = next none
  log_result (some l) result next =
      after_log
        (debug marshal now span "Received result from worker pool"
          (some (("task_id", phrase_of result.task_id) ∷ ("result_id", phrase_of result.id) ∷ [])
            ∷ [])
          l)
        next

  -- The attributes are a nil map.
  unfoldable pub log_pool_error :
      Option StructuredLogger → Bytes → (Option StructuredLogger → LoopEnd) → LoopEnd
  unfolding error
  log_pool_error none err next = next none
  log_pool_error (some l) err next =
      after_log (error marshal now span "Worker pool error" (some err) (none ∷ []) l) next

  abbrev pub results_loop : List Arrival → Option StructuredLogger → LoopEnd
  results_loop [] logger = still_waiting logger
  results_loop (context_done ∷ arrivals) logger = returned logger
  results_loop (result_arrived none ∷ arrivals) logger = results_loop arrivals logger
  results_loop (result_arrived (some result) ∷ arrivals) logger =
      log_result logger result (results_loop arrivals)
  results_loop (error_arrived none ∷ arrivals) logger = results_loop arrivals logger
  results_loop (error_arrived (some err) ∷ arrivals) logger =
      log_pool_error logger err (results_loop arrivals)

  -- Without a pool the goroutine ends at once.
  unfoldable pub process_worker_results : Bool → List Arrival → Option StructuredLogger → LoopEnd
  process_worker_results has_pool arrivals logger =
      let loop = results_loop arrivals logger in if has_pool then loop else returned logger

-- An error arrives before the context is done.
abbrev pub has_error : List Arrival → Bool
has_error [] = false
has_error (context_done ∷ arrivals) = false
has_error (result_arrived result ∷ arrivals) = has_error arrivals
has_error (error_arrived none ∷ arrivals) = has_error arrivals
has_error (error_arrived (some err) ∷ arrivals) = true

-- The results that arrive before it is done.
abbrev pub results_before : List Arrival → ℕ
results_before [] = 0
results_before (context_done ∷ arrivals) = 0
results_before (result_arrived none ∷ arrivals) = results_before arrivals
results_before (result_arrived (some result) ∷ arrivals) = suc (results_before arrivals)
results_before (error_arrived err ∷ arrivals) = results_before arrivals

abbrev pub logger_of : LoopEnd → Option StructuredLogger
logger_of (returned logger) = logger
logger_of (still_waiting logger) = logger
logger_of loop_panicked = none

-- The end of the loop, by whether an error arrives and by the results that do.
abbrev pub EndsLoop : Bool → ℕ → StructuredLogger → LoopEnd → Type 0
EndsLoop true results l outcome = outcome ≡ loop_panicked
EndsLoop false results l outcome =
    (m : StructuredLogger) × (logger_of outcome ≡ some m)
    × (length m.output ≡ results + length l.output)

EndsLoop-suc :
    (failed : Bool) (results : ℕ) (l longer : StructuredLogger) (outcome : LoopEnd)
    → length longer.output ≡ suc (length l.output)
    → EndsLoop failed results longer outcome
    → EndsLoop failed (suc results) l outcome
EndsLoop-suc true results l longer outcome e h = h
EndsLoop-suc false results l longer outcome e (m, o, k) = (m, o, omega (arith, e, k))

module _ (marshal : LogEntry → Option Bytes) (now : Bytes) (span : Option SpanContext) where
  -- With a pool and a logger the goroutine panics exactly when an error of the pool reaches it before
  -- its context is done; otherwise it writes one line for each result that it takes.
  pub process_worker_results-EndsLoop :
      (arrivals : List Arrival) (l : StructuredLogger)
      → EndsLoop
          (has_error arrivals)
          (results_before arrivals)
          l
          (process_worker_results marshal now span true arrivals (some l))
  unfolding process_worker_results log_result log_pool_error debug error log
  process_worker_results-EndsLoop [] l = (l, refl, omega arith)
  process_worker_results-EndsLoop (context_done ∷ arrivals) l = (l, refl, omega arith)
  process_worker_results-EndsLoop (result_arrived none ∷ arrivals) l =
      process_worker_results-EndsLoop arrivals l
  process_worker_results-EndsLoop (result_arrived (some result) ∷ arrivals) l =
      EndsLoop-suc (has_error arrivals) (results_before arrivals) l _ _ refl
        (process_worker_results-EndsLoop arrivals _)
  process_worker_results-EndsLoop (error_arrived none ∷ arrivals) l =
      process_worker_results-EndsLoop arrivals l
  process_worker_results-EndsLoop (error_arrived (some err) ∷ arrivals) l = refl
