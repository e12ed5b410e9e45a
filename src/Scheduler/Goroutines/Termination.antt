-- ===== src/Scheduler/Goroutines/Termination.antt =====
-- internal/scheduler/scheduler.go: a stopped scheduler comes to its end, unless ticks keep it busy.
use mathlib.Core.WellFounded.{Acc}
use amazing_gitlab_exporter.Base.{
  ℕ, zero, suc, ◌+◌, ◌<◌, ◌≡◌, refl, sym, ap, subst, ◌∙◌, ◌⊎◌, inl, inr, String, Bool, true, List,
  [], ◌∷◌, ◌++◌, arith,
}
use amazing_gitlab_exporter.Scheduler.Goroutines.{
  Phase, executing, selecting, returned, Scheduler, new_scheduler, start, stop, Waited, Step,
  finish, tick, leave, end_parent, IsDone, Run, here, moves, ends, stops,
}
use amazing_gitlab_exporter.Scheduler.Goroutines.Stopping.{
  active, active-append, IsCounted, Run-IsCounted, start-IsCounted, Run-can_cancel,
  launch-can_cancel,
}

-- A step that is no tick.
abbrev pub IsQuiet : {s t : Scheduler} → Step s t → Type 0
IsQuiet (finish s pre post) = Unit
IsQuiet (tick s pre post) = ⊥
IsQuiet (leave s n pre post done) = Unit

-- `t` comes after `s` by such a step.
abbrev pub Follows : Scheduler → Scheduler → Type 0
Follows t s = (step : Step s t) × IsQuiet step

abbrev work_of : Phase → ℕ
work_of executing = 2
work_of selecting = 1
work_of returned = 0

-- The steps that are left to do without a tick.
abbrev work : List Phase → ℕ
work [] = 0
work (p ∷ ps) = work_of p + work ps

work-append : (ps qs : List Phase) → work (ps ++ qs) ≡ work ps + work qs
work-append [] qs = omega arith
work-append (p ∷ ps) qs = omega (arith, work-append ps qs)

Step-work :
    {s t : Scheduler} (step : Step s t) → IsQuiet step → work t.goroutines < work s.goroutines
Step-work (finish s pre post) h =
    omega (arith, work-append pre (executing ∷ post), work-append pre (selecting ∷ post))
Step-work (tick s pre post) h = absurd h
Step-work (leave s n pre post done) h =
    omega (arith, work-append pre (returned ∷ post), work-append pre (selecting ∷ post))

Follows-Acc : (n : ℕ) (s : Scheduler) → work s.goroutines < n → Acc Follows s
Follows-Acc zero s h = absurd (omega (arith, h))
Follows-Acc (suc n) s h =
    Acc.intro s (λ t (step, quiet). Follows-Acc n t (omega (arith, h, Step-work step quiet)))

-- One of the goroutines is at its `select` or in `execute`, or none is active.
abbrev Split : List Phase → Type 0
Split ps =
    (active ps ≡ 0)
    ⊎ ((pre : List Phase) × (post : List Phase) × ((ps ≡ pre ++ executing ∷ post)
          ⊎ (ps ≡ pre ++ selecting ∷ post)))

split : (ps : List Phase) → Split ps
split [] = inl refl
split (executing ∷ ps) = inr ([], ps, inl refl)
split (selecting ∷ ps) = inr ([], ps, inr refl)
split (returned ∷ ps) = elim (split ps) [
  | inl none_active ↦ inl (omega (arith, none_active))
  | inr (pre, post, which) ↦ inr (
    returned ∷ pre,
    post,
    elim which [
      | inl e ↦ inl (ap (λ qs. returned ∷ qs) e)
      | inr e ↦ inr (ap (λ qs. returned ∷ qs) e)
    ],
  )
]

leave_from :
    (s : Scheduler) (n : ℕ) (pre post : List Phase)
    → IsDone s
    → s.goroutines ≡ pre ++ selecting ∷ post
    → s.counter ≡ suc n
    → Follows (record s { goroutines = pre ++ returned ∷ post; counter = n }) s
leave_from s n pre post done at_select counted =
    subst (λ t. Follows (record s { goroutines = pre ++ returned ∷ post; counter = n }) t)
      (ap (λ gs. record s { goroutines = gs; counter = suc n }) (sym at_select)
        ∙ ap (λ k. record s { counter = k }) (sym counted))
      (leave s n pre post done, tt)

-- A counted scheduler with a context that is done whose wait does not return can make a step.
progress : (s : Scheduler) → IsDone s → IsCounted s → ((t : Scheduler) → ¬ Follows t s) → Waited s
progress s done counted stuck = elim (split s.goroutines) [
  | inl none_active ↦ counted ∙ none_active
  | inr (pre, post, inl at_work) ↦ absurd (
      stuck _ (
        subst
          (λ gs.
            Follows (record s { goroutines = pre ++ selecting ∷ post })
              (record s { goroutines = gs }))
          (sym at_work) (finish s pre post, tt)))
  | inr (pre, post, inr at_select) ↦ absurd (
      stuck _ (
        leave_from s (active pre + active post) pre post done at_select
          (counted ∙ ap active at_select ∙ omega (arith, active-append pre (selecting ∷ post)))))
]

Step-cancelled : {s t : Scheduler} → Step s t → s.cancelled ≡ true → t.cancelled ≡ true
Step-cancelled (finish s pre post) h = h
Step-cancelled (tick s pre post) h = h
Step-cancelled (leave s n pre post done) h = h

Run-cancelled :
    {s t : Scheduler} → Run s t → s.can_cancel ≡ true → s.cancelled ≡ true → t.cancelled ≡ true
unfolding stop end_parent
Run-cancelled here can h = h
Run-cancelled (moves run step) can h = Step-cancelled step (Run-cancelled run can h)
Run-cancelled (ends run) can h = Run-cancelled run can h
Run-cancelled (stops run) can h = Run-can_cancel run ∙ can

-- Let `Stop` be called on a started scheduler, however far its tasks have come and whether or not the
-- context that `Start` was given has ended, and let the run go on in any way. From then on the goroutines can take only finitely many steps without a tick (the relation
-- of such steps is well-founded), and wherever no such step is left, every goroutine has called `Done`
-- and the wait of `Stop` returns: there is no deadlock.
pub stop_terminates :
    (tasks : List String) (done : Bool) (t u : Scheduler)
    → Run (start done (record new_scheduler { tasks = tasks })) t
    → Run (stop t) u
    → Acc Follows u × (((v : Scheduler) → ¬ Follows v u) → Waited u)
unfolding start stop
stop_terminates tasks done t u before after =
    let can : t.can_cancel ≡ true = Run-can_cancel before ∙ launch-can_cancel tasks _ in
    let counted : IsCounted u =
      Run-IsCounted after (Run-IsCounted before (start-IsCounted tasks done)) in
    (
      Follows-Acc (suc (work u.goroutines)) u (omega arith),
      progress u (ground (arith, Run-cancelled after can can)) counted,
    )
