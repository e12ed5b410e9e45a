-- ===== src/Scheduler/Queue/Order.antt =====
-- What becomes of the functions that are enqueued.
use mathlib.Core.List.{append_assoc, append-nil}
use amazing_gitlab_exporter.Base.{
  ◌≤◌, ◌≡◌, refl, Bool, true, false, List, [], ◌∷◌, ◌++◌, if◌then◌else◌, ltb, Bool-cases, inl, inr,
  arith,
}
use amazing_gitlab_exporter.Base.Lists.{length, length-append}
use amazing_gitlab_exporter.Base.Int.{ℤ}
use amazing_gitlab_exporter.Scheduler.Queue.{
  TaskQueue, new_task_queue, enqueue, State, Step, submit, receive, cancelled, call_next, step,
  steps, start,
}

module _ {ℓ} {F : Type ℓ} where
  -- The functions of a run that found room in the channel, in the order of their submission.
  pub accepted : State F → List (Step F) → List F
  accepted s [] = []
  accepted s (submit fn ∷ ts) =
      let rest = accepted (step s (submit fn)) ts in
      if ltb (length s.queue.buffer) s.queue.capacity then fn ∷ rest else rest
  accepted s (receive ∷ ts) = accepted (step s receive) ts
  accepted s (cancelled ∷ ts) = accepted (step s cancelled) ts

  call_next-order :
      (s : State F) (buffer : List F)
      → s.queue.buffer ≡ buffer
      → (call_next s buffer).called ++ (call_next s buffer).queue.buffer
        ≡ s.called ++ s.queue.buffer
  unfolding call_next
  call_next-order s [] h = refl
  call_next-order s (fn ∷ rest) h = rw (h, append_assoc) refl

  receive-order :
      (s : State F) (running : Bool)
      → let next = if running then call_next s s.queue.buffer else s in
        next.called ++ next.queue.buffer ≡ s.called ++ s.queue.buffer
  receive-order s true = call_next-order s s.queue.buffer refl
  receive-order s false = refl

  step-order :
      (s : State F) (t : Step F)
      → (step s t).called ++ (step s t).queue.buffer
        ≡ (s.called ++ s.queue.buffer) ++ accepted s (t ∷ [])
  unfolding step accepted enqueue
  step-order s (submit fn) = elim (Bool-cases (ltb (length s.queue.buffer) s.queue.capacity)) [
    | inl room ↦ rw (room, append_assoc) refl
    | inr full ↦ rw (full, append-nil) refl
  ]
  step-order s receive = rw append-nil (receive-order s s.running)
  step-order s cancelled = rw append-nil refl

  accepted-cons :
      (s : State F) (t : Step F) (ts : List (Step F))
      → accepted s (t ∷ ts) ≡ accepted s (t ∷ []) ++ accepted (step s t) ts
  unfolding accepted
  accepted-cons s (submit fn) ts =
      elim (Bool-cases (ltb (length s.queue.buffer) s.queue.capacity)) [
        | inl room ↦ rw room refl
        | inr full ↦ rw full refl
      ]
  accepted-cons s receive ts = refl
  accepted-cons s cancelled ts = refl

  steps-order :
      (s : State F) (ts : List (Step F))
      → (steps s ts).called ++ (steps s ts).queue.buffer
        ≡ (s.called ++ s.queue.buffer) ++ accepted s ts
  unfolding steps accepted
  steps-order s [] = rw append-nil refl
  steps-order s (t ∷ ts) =
      rw (steps-order (step s t) ts, step-order s t, accepted-cons s t ts, append_assoc) refl

  -- In every run of the queue, the functions called so far, followed by those that wait, are exactly
  -- the functions that found room, in the order of their submission.
  pub called_in_order :
      (buffer_size : ℤ) (ts : List (Step F))
      → let s = steps (start buffer_size) ts in
        s.called ++ s.queue.buffer ≡ accepted (start buffer_size) ts
  unfolding new_task_queue
  called_in_order buffer_size ts = steps-order (start buffer_size) ts

  enqueue-bounded :
      (q : TaskQueue F) (fn : F)
      → length q.buffer ≤ q.capacity
      → (length (enqueue q fn).buffer ≤ q.capacity) × ((enqueue q fn).capacity ≡ q.capacity)
  unfolding enqueue
  enqueue-bounded q fn h = ground (arith, length-append q.buffer (fn ∷ []))

  call_next-bounded :
      (s : State F) (buffer : List F)
      → s.queue.buffer ≡ buffer
      → let q = (call_next s buffer).queue in
        (length q.buffer ≤ length s.queue.buffer) × (q.capacity ≡ s.queue.capacity)
  unfolding call_next
  call_next-bounded s [] h = (omega arith, refl)
  call_next-bounded s (fn ∷ rest) h = rw h (omega arith, refl)

  receive-bounded :
      (s : State F) (running : Bool)
      → let q = (if running then call_next s s.queue.buffer else s).queue in
        (length q.buffer ≤ length s.queue.buffer) × (q.capacity ≡ s.queue.capacity)
  receive-bounded s true = call_next-bounded s s.queue.buffer refl
  receive-bounded s false = (omega arith, refl)

  step-bounded :
      (s : State F) (t : Step F)
      → length s.queue.buffer ≤ s.queue.capacity
      → let q = (step s t).queue in
        (length q.buffer ≤ s.queue.capacity) × (q.capacity ≡ s.queue.capacity)
  unfolding step
  step-bounded s (submit fn) h = enqueue-bounded s.queue fn h
  step-bounded s receive h =
      let (shorter, same) = receive-bounded s s.running in (omega (arith, shorter, h), same)
  step-bounded s cancelled h = (h, refl)

  steps-bounded :
      (s : State F) (ts : List (Step F))
      → length s.queue.buffer ≤ s.queue.capacity
      → length (steps s ts).queue.buffer ≤ s.queue.capacity
  unfolding steps
  steps-bounded s [] h = h
  steps-bounded s (t ∷ ts) h =
      let (bounded, same) = step-bounded s t h in
      ground (arith, bounded, same, steps-bounded (step s t) ts)

  -- The channel is made with room for at least one function, and never holds more than it has room
  -- for.
  pub waiting_bounded :
      (buffer_size : ℤ) (ts : List (Step F))
      → let q = new_task_queue {F = F} buffer_size in
        (1 ≤ q.capacity) × (length (steps (start buffer_size) ts).queue.buffer ≤ q.capacity)
  unfolding new_task_queue
  waiting_bounded buffer_size ts =
      (ground arith, steps-bounded (start buffer_size) ts (ground arith))
