-- ===== src/Scheduler/Goroutines/Stopping.antt =====
-- internal/scheduler/scheduler.go: `Stop` waits for every goroutine.
use amazing_gitlab_exporter.Base.{
  ℕ, ◌+◌, ◌≡◌, refl, sym, ◌∙◌, String, Bool, List, [], ◌∷◌, ◌++◌, arith,
}
use amazing_gitlab_exporter.Base.Lists.{All}
use amazing_gitlab_exporter.Scheduler.Goroutines.{
  Phase, executing, selecting, returned, Scheduler, new_scheduler, launch, start, stop, Waited,
  Step, finish, tick, leave, end_parent, Run, here, moves, ends, stops,
}

abbrev one_active : Phase → ℕ
one_active executing = 1
one_active selecting = 1
one_active returned = 0

-- The goroutines that have not returned.
abbrev pub active : List Phase → ℕ
active [] = 0
active (p ∷ ps) = one_active p + active ps

pub active-append : (ps qs : List Phase) → active (ps ++ qs) ≡ active ps + active qs
active-append [] qs = omega arith
active-append (p ∷ ps) qs = omega (arith, active-append ps qs)

-- The wait group counts the goroutines that have not returned.
abbrev pub IsCounted : Scheduler → Type 0
IsCounted s = s.counter ≡ active s.goroutines

launch-IsCounted : (tasks : List String) (s : Scheduler) → IsCounted s → IsCounted (launch tasks s)
unfolding launch
launch-IsCounted [] s h = h
launch-IsCounted (task ∷ tasks) s h =
    launch-IsCounted tasks _ (omega (arith, h, active-append s.goroutines (executing ∷ [])))

Step-IsCounted : {s t : Scheduler} → Step s t → IsCounted s → IsCounted t
Step-IsCounted (finish s pre post) h =
    omega (arith, h, active-append pre (executing ∷ post), active-append pre (selecting ∷ post))
Step-IsCounted (tick s pre post) h =
    omega (arith, h, active-append pre (executing ∷ post), active-append pre (selecting ∷ post))
Step-IsCounted (leave s n pre post done) h =
    omega (arith, h, active-append pre (returned ∷ post), active-append pre (selecting ∷ post))

pub Run-IsCounted : {s t : Scheduler} → Run s t → IsCounted s → IsCounted t
unfolding stop end_parent
Run-IsCounted here h = h
Run-IsCounted (moves run step) h = Step-IsCounted step (Run-IsCounted run h)
Run-IsCounted (ends run) h = Run-IsCounted run h
Run-IsCounted (stops run) h = Run-IsCounted run h

abbrev pub HasReturned : Phase → Type 0
HasReturned p = p ≡ returned

active-HasReturned : (ps : List Phase) → active ps ≡ 0 → All HasReturned ps
active-HasReturned [] h = tt
active-HasReturned (executing ∷ ps) h = absurd (omega (arith, h))
active-HasReturned (selecting ∷ ps) h = absurd (omega (arith, h))
active-HasReturned (returned ∷ ps) h = (refl, active-HasReturned ps (omega (arith, h)))

Step-active : {s t : Scheduler} → Step s t → active s.goroutines ≡ 0 → ⊥
Step-active (finish s pre post) h = absurd (omega (arith, h, active-append pre (executing ∷ post)))
Step-active (tick s pre post) h = absurd (omega (arith, h, active-append pre (selecting ∷ post)))
Step-active (leave s n pre post done) h =
    absurd (omega (arith, h, active-append pre (selecting ∷ post)))

pub start-IsCounted :
    (tasks : List String) (done : Bool)
    → IsCounted (start done (record new_scheduler { tasks = tasks }))
unfolding start new_scheduler
start-IsCounted tasks done = launch-IsCounted tasks _ refl

-- Take a scheduler that was started with any tasks, and any run of it: its goroutines move in any order,
-- the context that `Start` was given may be done from the start or end at any point, and `Stop` is called
-- any number of times. Whenever the wait of `Stop` can return, every goroutine has
-- returned, and none of them moves any more.
pub stop-HasReturned :
    (tasks : List String) (done : Bool) (t : Scheduler)
    → Run (start done (record new_scheduler { tasks = tasks })) t
    → Waited t
    → All HasReturned t.goroutines × ((u : Scheduler) → ¬ Step t u)
stop-HasReturned tasks done t run waited =
    let counted : IsCounted t = Run-IsCounted run (start-IsCounted tasks done) in
    let none_active : active t.goroutines ≡ 0 = sym counted ∙ waited in
    (active-HasReturned t.goroutines none_active, λ u step. Step-active step none_active)

pub launch-can_cancel :
    (tasks : List String) (s : Scheduler) → (launch tasks s).can_cancel ≡ s.can_cancel
unfolding launch
launch-can_cancel [] s = refl
launch-can_cancel (task ∷ tasks) s = launch-can_cancel tasks _

Step-can_cancel : {s t : Scheduler} → Step s t → t.can_cancel ≡ s.can_cancel
Step-can_cancel (finish s pre post) = refl
Step-can_cancel (tick s pre post) = refl
Step-can_cancel (leave s n pre post done) = refl

pub Run-can_cancel : {s t : Scheduler} → Run s t → t.can_cancel ≡ s.can_cancel
unfolding stop end_parent
Run-can_cancel here = refl
Run-can_cancel (moves run step) = Step-can_cancel step ∙ Run-can_cancel run
Run-can_cancel (ends run) = Run-can_cancel run
Run-can_cancel (stops run) = Run-can_cancel run
