-- ===== src/Collector/Observations/Invariants.antt =====
-- internal/collector: what a run keeps, however it ends.
use mathlib.Core.List.{append-nil, append_assoc}
use amazing_gitlab_exporter.Base.{
  ◌≡◌, refl, subst, String, Bool, true, false, none, List, [], ◌∷◌, ◌++◌, Option-cases, inl, inr,
}
use amazing_gitlab_exporter.Base.Errors.{Result, ok, err, ok-injective}
use amazing_gitlab_exporter.Collector.Observations.{
  initial, Observer, Host, Progress, sweep, replace, run_sweep, run_gated,
}

-- What holds of the progress, where the loop came to its end.
abbrev pub Completed : {Lists : Type 0} → (Lists → Type 0) → Result (Progress Lists) → Type 0
Completed P (ok progress) = P progress.lists
Completed P (err e) = Unit

module _ {World Time F Lists : Type 0} (host : Host World Time F) where
  pub sweep-Completed :
      (P : Lists → Type 0)
      → (visit : String → Progress Lists → World → Progress Lists × World)
      → ((project : String) (progress : Progress Lists) (w : World)
          → P progress.lists
          → P ((visit project progress w).0).lists)
      → (projects : List String) → (progress : Progress Lists) → (w : World) → P progress.lists
      → Completed P (sweep host visit projects progress w).0
  unfolding sweep
  sweep-Completed P visit keeps [] progress w h = h
  sweep-Completed P visit keeps (project ∷ projects) progress w h =
      elim (Option-cases (host.ctx_err w)) [
        | inl live ↦
            rw (live, sweep)
              (sweep-Completed P visit keeps projects (visit project progress w).0
                (visit project progress w).1 (keeps project progress w h))
        | inr (e, done) ↦ rw (done, sweep) tt
      ]

  sweep-Visited :
      (I : List String → Progress Lists → Type 0)
      → (visit : String → Progress Lists → World → Progress Lists × World)
      → ((visited : List String) (project : String) (progress : Progress Lists) (w : World)
          → I visited progress
          → I (visited ++ project ∷ []) (visit project progress w).0)
      → (visited projects : List String) → (progress : Progress Lists) → (w : World)
      → I visited progress
      → (final : Progress Lists) → (sweep host visit projects progress w).0 ≡ ok final
      → I (visited ++ projects) final
  unfolding sweep
  sweep-Visited I visit step visited [] progress w h final same =
      subst (λ p. I (visited ++ []) p) (ok-injective same) (rw append-nil h)
  sweep-Visited I visit step visited (project ∷ projects) progress w h final same =
      elim (Option-cases (host.ctx_err w)) [
        | inl live ↦
            subst (λ v. I v final) (append_assoc visited (project ∷ []) projects)
              (sweep-Visited I visit step (visited ++ project ∷ []) projects
                (visit project progress w).0 (visit project progress w).1
                (step visited project progress w h) final (rw (live, sweep) at (same)))
        | inr (e, done) ↦ absurd (cc (rw (done, sweep) at (same)))
      ]

  -- What holds of the projects visited so far and the progress holds, after a run without an error, of
  -- all the projects and the observations.
  pub run_sweep-Visited :
      {Options : Type 0}
      → (I : List String → Progress Lists → Type 0) → (empty : Lists)
      → (visit : String → Progress Lists → World → Progress Lists × World) → I [] (initial empty)
      → ((visited : List String) (project : String) (progress : Progress Lists) (w : World)
          → I visited progress
          → I (visited ++ project ∷ []) (visit project progress w).0)
      → (c : Observer Options Lists F) → (w : World) → (run_sweep host empty visit c w).0.0 ≡ none
      → let o = ((run_sweep host empty visit c w).0.1).observations in
        I c.projects record { lists = o.lists; errors = o.scrape_errors }
  unfolding run_sweep replace
  run_sweep-Visited I empty visit start step c w success =
      go (sweep host visit c.projects (initial empty) w)
        (sweep-Visited I visit step [] c.projects (initial empty) w start) success
    where
      go :
          (swept : Result (Progress Lists) × World)
          → ((final : Progress Lists) → swept.0 ≡ ok final → I c.projects final)
          → (replace host c w swept).0.0 ≡ none
          → let o = ((replace host c w swept).0.1).observations in
            I c.projects record { lists = o.lists; errors = o.scrape_errors }
      go (ok progress, w1) p success = p progress refl
      go (err e, w1) p success = absurd (cc success)

  -- What holds of the lists that the collector has, of empty lists, and of what a visit makes of lists of
  -- which it holds, holds after a run, however it ends.
  pub run_sweep-keeps :
      {Options : Type 0}
      → (P : Lists → Type 0) → (empty : Lists)
      → (visit : String → Progress Lists → World → Progress Lists × World) → P empty
      → ((project : String) (progress : Progress Lists) (w : World)
          → P progress.lists
          → P ((visit project progress w).0).lists)
      → (c : Observer Options Lists F) → (w : World) → P c.observations.lists
      → P ((run_sweep host empty visit c w).0.1).observations.lists
  unfolding run_sweep replace
  run_sweep-keeps P empty visit start keeps c w h =
      go (sweep host visit c.projects (initial empty) w)
        (sweep-Completed P visit keeps c.projects (initial empty) w start)
    where
      go :
          (swept : Result (Progress Lists) × World)
          → Completed P swept.0
          → P ((replace host c w swept).0.1).observations.lists
      go (ok progress, w1) p = p
      go (err e, w1) p = h

  -- The same of a run behind a feature.
  pub run_gated-keeps :
      {Options : Type 0}
      → (available : Bool) → (P : Lists → Type 0) → (empty : Lists)
      → (visit : String → Progress Lists → World → Progress Lists × World) → P empty
      → ((project : String) (progress : Progress Lists) (w : World)
          → P progress.lists
          → P ((visit project progress w).0).lists)
      → (c : Observer Options Lists F) → (w : World) → P c.observations.lists
      → P ((run_gated host available empty visit c w).0.1).observations.lists
  unfolding run_gated
  run_gated-keeps true P empty visit start keeps c w h =
      run_sweep-keeps P empty visit start keeps c w h
  run_gated-keeps false P empty visit start keeps c w h = start

  sweep-Live :
      (visit : String → Progress Lists → World → Progress Lists × World)
      → ((w : World) → host.ctx_err w ≡ none)
      → (projects : List String) → (progress : Progress Lists) → (w : World)
      → (final : Progress Lists) × ((sweep host visit projects progress w).0 ≡ ok final)
  unfolding sweep
  sweep-Live visit live [] progress w = (progress, refl)
  sweep-Live visit live (project ∷ projects) progress w =
      rw (live w, sweep)
        (sweep-Live visit live projects (visit project progress w).0 (visit project progress w).1)

  -- Under a context that is never done, `Run` returns nil.
  pub run_gated-succeeds :
      {Options : Type 0}
      → (available : Bool) → (empty : Lists)
      → (visit : String → Progress Lists → World → Progress Lists × World)
      → (c : Observer Options Lists F) → (w : World) → ((w : World) → host.ctx_err w ≡ none)
      → (run_gated host available empty visit c w).0.0 ≡ none
  unfolding run_gated run_sweep replace
  run_gated-succeeds false empty visit c w live = refl
  run_gated-succeeds true empty visit c w live =
      go (sweep host visit c.projects (initial empty) w)
        (sweep-Live visit live c.projects (initial empty) w)
    where
      go :
          (swept : Result (Progress Lists) × World)
          → (final : Progress Lists) × (swept.0 ≡ ok final)
          → (replace host c w swept).0.0 ≡ none
      go (ok progress, w1) h = refl
      go (err e, w1) (final, same) = absurd (cc same)
