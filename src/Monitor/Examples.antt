-- ===== src/Monitor/Examples.antt =====
-- The monitor on concrete tasks.
use open_research_agent.Base.{refl, arith}
use open_research_agent.Base.GoMap.{lookup}
use open_research_agent.Monitor.{ProgressMonitor, new_progress_monitor, track_task}
use open_research_agent.Monitor.Loads.{Reach, here, next, tracks, IsExact, Reach-IsExact}

abbrev watched : ProgressMonitor
watched = track_task 4 "t1" "w1" new_progress_monitor

watched_reached : Reach new_progress_monitor watched
unfolding new_progress_monitor lookup
watched_reached = next here (tracks 4 "t1" "w1" refl (omega arith))

Reach-IsExact_example : IsExact watched
Reach-IsExact_example = Reach-IsExact watched_reached
