-- ===== src/Scheduler/Task.antt =====
-- internal/scheduler/task.go. The runtime chooses the cases of the `select`, so a run of the loop is
-- given by the signals that it receives, and ends with them or with a cancellation.
mod Tests
use mathlib.Core.List.{append_assoc, append-nil}
use amazing_gitlab_exporter.Base.{
  ℕ, zero, suc, ◌+◌, ◌≡◌, refl, String, Option, none, some, List, [], ◌∷◌, ◌++◌, arith,
}
use amazing_gitlab_exporter.Base.Lists.{length}
use amazing_gitlab_exporter.Base.Errors.{Error}

pub data Signal : Type 0 where
  tick cancelled : Signal

module _ {World : Type 0} (run_func : World → Option Error × World) where
  -- `execute` logs the error, if any; the log is what the loop keeps of it.
  pub execute : List (Option Error) × World → List (Option Error) × World
  execute (log, w) = let (e, w1) = run_func w in (log ++ e ∷ [], w1)

  pub loop : List (Option Error) × World → List Signal → List (Option Error) × World
  loop s [] = s
  loop s (cancelled ∷ signals) = s
  loop s (tick ∷ signals) = loop (execute s) signals

  pub run_task : World → List Signal → List (Option Error) × World
  run_task w signals = loop (execute ([], w)) signals

  -- The outcomes of calling a function so many times, one after the other.
  abbrev pub outcomes : ℕ → World → List (Option Error)
  outcomes zero w = []
  outcomes (suc n) w = (run_func w).0 ∷ outcomes n (run_func w).1

-- The ticks before the task is cancelled.
abbrev pub ticks : List Signal → ℕ
ticks [] = 0
ticks (cancelled ∷ signals) = 0
ticks (tick ∷ signals) = suc (ticks signals)

module _ {World : Type 0} (run_func : World → Option Error × World) where
  loop-outcomes :
      (log : List (Option Error)) (w : World) (signals : List Signal)
      → (loop run_func (log, w) signals).0 ≡ log ++ outcomes run_func (ticks signals) w
  unfolding loop execute
  loop-outcomes log w [] = rw append-nil refl
  loop-outcomes log w (cancelled ∷ signals) = rw append-nil refl
  loop-outcomes log w (tick ∷ signals) =
      rw (loop-outcomes (log ++ (run_func w).0 ∷ []) (run_func w).1 signals, append_assoc) refl

  -- A task runs its function once at the start and once for each tick before it is cancelled, whatever
  -- errors the runs return.
  pub run_task-outcomes :
      (w : World) (signals : List Signal)
      → (run_task run_func w signals).0 ≡ outcomes run_func (suc (ticks signals)) w
  unfolding run_task execute
  run_task-outcomes w signals = loop-outcomes ((run_func w).0 ∷ []) (run_func w).1 signals
