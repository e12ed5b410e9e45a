-- ===== src/Scheduler/Queue/Tests.antt =====
-- A queue with room for one function.
use amazing_gitlab_exporter.Base.{ℕ, ◌≡◌, List, [], ◌∷◌, ◌++◌}
use amazing_gitlab_exporter.Base.Int.{pos}
use amazing_gitlab_exporter.Scheduler.Queue.{Step, submit, receive, cancelled, steps, start}
use amazing_gitlab_exporter.Scheduler.Queue.Order.{accepted, called_in_order}

-- The second function finds no room.
abbrev run : List (Step ℕ)
run = submit 1 ∷ submit 2 ∷ receive ∷ submit 3 ∷ cancelled ∷ receive ∷ []

called_in_order_example :
    let s = steps (start (pos 1)) run in s.called ++ s.queue.buffer ≡ accepted (start (pos 1)) run
called_in_order_example = called_in_order (pos 1) run
