-- ===== src/Scheduler/Queue.antt =====
-- internal/scheduler/queue.go. A queued function is a value of a type `F` that the model does not look
-- into; its panic is recovered from. `Start` and its callers take turns, so a run is the
-- sequence of their steps on the channel.
pub mod Order
mod Tests
use amazing_gitlab_exporter.Base.{
  ℕ, ◌+◌, Bool, true, false, List, [], ◌∷◌, ◌++◌, if◌then◌else◌, ltb,
}
use amazing_gitlab_exporter.Base.Lists.{length}
use amazing_gitlab_exporter.Base.Int.{ℤ, pos, negsuc, pos_part, ltb_ℤ}

-- The channel: its capacity and what it holds, oldest first.
pub record TaskQueue {ℓ} (F : Type ℓ) : Type ℓ where
  pub capacity : ℕ
  pub buffer : List F

-- The goroutine of `Start`: what it has called, and whether it still runs.
pub record State {ℓ} (F : Type ℓ) : Type ℓ where
  pub queue : TaskQueue F
  pub called : List F
  pub running : Bool

-- One case of the `select`, as the runtime chooses it: `receive` takes the oldest function, calls it,
-- and recovers from its panic; `cancelled` returns. `submit` is another goroutine's `Enqueue`.
pub data Step {ℓ} (F : Type ℓ) : Type ℓ where
  submit : F → Step F
  receive cancelled : Step F

module _ {ℓ} {F : Type ℓ} where
  pub new_task_queue : ℤ → TaskQueue F
  new_task_queue buffer_size = record {
    capacity = if ltb_ℤ buffer_size (pos 1) then 64 else pos_part buffer_size;
    buffer = [];
  }

  -- A full channel takes the `default` branch.
  pub enqueue : TaskQueue F → F → TaskQueue F
  enqueue q fn =
      if ltb (length q.buffer) q.capacity then record q { buffer = q.buffer ++ fn ∷ [] } else q

  pub call_next : State F → List F → State F
  call_next s [] = s
  call_next s (fn ∷ rest) = record s {
    queue = record { capacity = s.queue.capacity; buffer = rest };
    called = s.called ++ fn ∷ [];
  }

  pub step : State F → Step F → State F
  step s (submit fn) = record s { queue = enqueue s.queue fn }
  step s receive = if s.running then call_next s s.queue.buffer else s
  step s cancelled = record s { running = false }

  pub steps : State F → List (Step F) → State F
  steps s [] = s
  steps s (t ∷ ts) = steps (step s t) ts

  abbrev pub start : ℤ → State F
  start buffer_size = record { queue = new_task_queue buffer_size; called = []; running = true }
