-- ===== src/Scheduler/Task/Tests.antt =====
-- A function that fails every time.
use amazing_gitlab_exporter.Base.{ℕ, suc, ◌≡◌, Option, some, List, [], ◌∷◌}
use amazing_gitlab_exporter.Base.Errors.{Error, context}
use amazing_gitlab_exporter.Scheduler.Task.{
  Signal, tick, cancelled, run_task, outcomes, ticks, run_task-outcomes,
}

abbrev fails : ℕ → Option Error × ℕ
fails w = (some context, suc w)

abbrev signals : List Signal
signals = tick ∷ tick ∷ cancelled ∷ tick ∷ []

run_task-outcomes_example : (run_task fails 0 signals).0 ≡ outcomes fails (suc (ticks signals)) 0
run_task-outcomes_example = run_task-outcomes fails 0 signals
