-- ===== src/Supervisor/Examples.antt =====
-- The supervisor on concrete events.
use open_research_agent.Base.{String, refl, List, [], ◌∷◌, pos, arith, some, none, float_one}
use open_research_agent.Domain.{ResearchTask, pending}
use open_research_agent.Distribute.{assigned, assignment}
use open_research_agent.Supervisor.Rebalance.{Ranges}
use open_research_agent.Supervisor.{Supervisor, Call, distributes, completes, new_supervisor, run}
use open_research_agent.Supervisor.History.{Agrees, run-Agrees, new_supervisor-Agrees}
use open_research_agent.Supervisor.Attempts.{IsWithinRetries, run-IsWithinRetries}

abbrev topic : ResearchTask
topic = record {
  id = "t";
  topic = "go";
  parent_id = "";
  status = pending;
  priority = pos 1;
  assigned_worker = "";
  results = [];
  created_at = 5;
  completed_at = none;
  metadata = [];
}

abbrev events : List Call
events =
    distributes 6 (topic ∷ []) (assigned (assignment 6 topic "w0" float_one ∷ []))
    ∷ completes 7 "t" (some "no answer")
    ∷ completes 8 "t" none
    ∷ []

abbrev named : String → ResearchTask
named id = record topic { id = id }

-- Five tasks for one worker, and one for another.
abbrev crowding : List Call
crowding =
    distributes 6 (named "a" ∷ named "b" ∷ named "c" ∷ named "d" ∷ named "e" ∷ named "f" ∷ []) (
      assigned (
        assignment 6 (named "a") "w0" float_one
        ∷ assignment 6 (named "b") "w0" float_one
        ∷ assignment 6 (named "c") "w0" float_one
        ∷ assignment 6 (named "d") "w0" float_one
        ∷ assignment 6 (named "e") "w0" float_one
        ∷ assignment 6 (named "f") "w1" float_one
        ∷ []))
    ∷ []

abbrev crowded : Supervisor
crowded = run crowding new_supervisor

abbrev ranges : Ranges
ranges = record {
  loads_for_extremes = crowded.monitor.worker_loads;
  loads_for_workers = crowded.monitor.worker_loads;
  history = crowded.task_history;
}

run-Agrees_example : Agrees (run events new_supervisor)
run-Agrees_example = run-Agrees events new_supervisor new_supervisor-Agrees

run-IsWithinRetries_example : IsWithinRetries 3 (run events new_supervisor)
run-IsWithinRetries_example =
    run-IsWithinRetries 3 events new_supervisor (omega arith)
      (unfold new_supervisor in record { limit = refl; tried = tt })
