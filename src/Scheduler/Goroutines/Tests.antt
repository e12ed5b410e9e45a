-- ===== src/Scheduler/Goroutines/Tests.antt =====
-- A task that runs when the context of the program ends, and returns before `Stop` is called.
use mathlib.Core.WellFounded.{Acc}
use amazing_gitlab_exporter.Base.{refl, true, false, String, List, [], ◌∷◌}
use amazing_gitlab_exporter.Base.Lists.{All}
use amazing_gitlab_exporter.Scheduler.Goroutines.{
  returned, Scheduler, new_scheduler, launch, start, stop, Waited, Step, finish, leave, end_parent,
  Run, here, moves, ends, stops,
}
use amazing_gitlab_exporter.Scheduler.Goroutines.Stopping.{HasReturned, stop-HasReturned}
use amazing_gitlab_exporter.Scheduler.Goroutines.Termination.{Follows, stop_terminates}

abbrev tasks : List String
tasks = "pipelines" ∷ []

abbrev started : Scheduler
started = start false (record new_scheduler { tasks = tasks })

abbrev ended : Scheduler
ended = record {
  tasks = tasks;
  parent_done = true;
  can_cancel = true;
  cancelled = true;
  goroutines = returned ∷ [];
  counter = 0;
}

-- Started; the program's context ends, then the execution, the context is found done, and `Stop` is
-- called.
run : Run started ended
unfolding start launch new_scheduler end_parent stop
run = stops (
    moves (moves (ends here) (finish (end_parent started) [] []))
      (leave (end_parent started) 0 [] [] refl))

stop-HasReturned_example : All HasReturned ended.goroutines × ((u : Scheduler) → ¬ Step ended u)
stop-HasReturned_example = stop-HasReturned tasks false ended run refl

stop_terminates_example :
    let u = stop (end_parent started) in
    Acc Follows u × (((v : Scheduler) → ¬ Follows v u) → Waited u)
stop_terminates_example =
    stop_terminates tasks false (end_parent started) (stop (end_parent started)) (ends here) here
