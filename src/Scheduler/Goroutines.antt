-- ===== src/Scheduler/Goroutines.antt =====
-- internal/scheduler/scheduler.go: one goroutine for each task, the wait group that counts them, and the
-- two ways in which their context ends: the context that `Start` is given is done, or `Stop` cancels the
-- one that `Start` derives from it. What a goroutine does next, and which one moves, is a choice of the
-- runtime, so a run is a sequence of steps of a relation. A goroutine runs `Task.Run`, which returns
-- only on `ctx.Done()`; the `select` may choose a tick also when the context is done.
pub mod Stopping
pub mod Termination
mod Tests
use amazing_gitlab_exporter.Base.{ℕ, suc, ◌≡◌, String, Bool, true, false, ◌||◌, List, [], ◌∷◌, ◌++◌}

-- Where a goroutine stands in `Task.Run`: in `execute`, at the `select`, or after its return.
pub data Phase : Type 0 where
  executing selecting returned : Phase

pub record Scheduler : Type 0 where
  pub tasks : List String
  -- Whether the context that `Start` was given is done.
  pub parent_done : Bool
  -- Whether `cancel` is set, and whether it has been called.
  pub can_cancel : Bool
  pub cancelled : Bool
  pub goroutines : List Phase
  -- The counter of the wait group.
  pub counter : ℕ

pub new_scheduler : Scheduler
new_scheduler = record {
  tasks = [];
  parent_done = false;
  can_cancel = false;
  cancelled = false;
  goroutines = [];
  counter = 0;
}

pub add_task : Scheduler → String → Scheduler
add_task s task = record s { tasks = s.tasks ++ task ∷ [] }

-- `for _, t := range s.tasks { s.wg.Add(1); go ... }`
pub launch : List String → Scheduler → Scheduler
launch [] s = s
launch (task ∷ tasks) s =
    launch tasks record s { goroutines = s.goroutines ++ executing ∷ []; counter = suc s.counter }

-- `Start`, given whether the context that it is passed is done already.
pub start : Bool → Scheduler → Scheduler
start done s = launch s.tasks (record s { parent_done = done; can_cancel = true })

-- The context that was passed to `Start` is cancelled, or its deadline passes.
pub end_parent : Scheduler → Scheduler
end_parent s = record s { parent_done = true }

-- The context that `Start` derives, and that the tasks get, is done.
abbrev pub IsDone : Scheduler → Type 0
IsDone s = (s.parent_done || s.cancelled) ≡ true

-- The first half of `Stop`.
pub stop : Scheduler → Scheduler
stop s = record s { cancelled = s.can_cancel }

-- `s.wg.Wait()` returns, and with it `Stop`.
abbrev pub Waited : Scheduler → Type 0
Waited s = s.counter ≡ 0

-- One goroutine moves: its `execute` ends, its `select` takes a tick, or it finds the context done,
-- returns and calls `s.wg.Done()`.
pub data Step : Scheduler → Scheduler → Type 0 where
  finish :
      (s : Scheduler) (pre post : List Phase)
      → Step
          (record s { goroutines = pre ++ executing ∷ post })
          (record s { goroutines = pre ++ selecting ∷ post })
  tick :
      (s : Scheduler) (pre post : List Phase)
      → Step
          (record s { goroutines = pre ++ selecting ∷ post })
          (record s { goroutines = pre ++ executing ∷ post })
  leave :
      (s : Scheduler) (n : ℕ) (pre post : List Phase)
      → IsDone s
      → Step
          (record s { goroutines = pre ++ selecting ∷ post; counter = suc n })
          (record s { goroutines = pre ++ returned ∷ post; counter = n })

-- A run: steps of goroutines, and at some points the end of the context that `Start` was given, and
-- calls of `Stop`.
pub data Run (s : Scheduler) : Scheduler → Type 0 where
  here : Run s s
  moves : {t u : Scheduler} → Run s t → Step t u → Run s u
  ends : {t : Scheduler} → Run s t → Run s (end_parent t)
  stops : {t : Scheduler} → Run s t → Run s (stop t)
