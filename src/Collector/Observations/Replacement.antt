-- ===== src/Collector/Observations/Replacement.antt =====
-- internal/collector: when `Run` replaces the observations.
use amazing_gitlab_exporter.Base.{◌≡◌, refl, String, none, some, List, [], ◌∷◌, ◌++◌}
use amazing_gitlab_exporter.Base.Errors.{Error}
use amazing_gitlab_exporter.Collector.Observations.{
  initial, Observer, Host, Progress, sweep, replace, run_sweep,
}

module _ {World Time F Lists : Type 0} (host : Host World Time F) where
  -- The loop without its test of the context.
  abbrev pub visit_all :
      (String → Progress Lists → World → Progress Lists × World)
      → List String
      → Progress Lists
      → World
      → Progress Lists × World
  visit_all visit [] progress w = (progress, w)
  visit_all visit (project ∷ projects) progress w =
      let (progress1, w1) = visit project progress w in visit_all visit projects progress1 w1

  -- The context is not done when the turn of each of these projects comes.
  abbrev pub Live :
      (String → Progress Lists → World → Progress Lists × World)
      → List String
      → Progress Lists
      → World
      → Type 0
  Live visit [] progress w = Unit
  Live visit (project ∷ projects) progress w =
      (host.ctx_err w ≡ none)
      × Live visit projects (visit project progress w).0 (visit project progress w).1

  sweep-visit_all :
      (visit : String → Progress Lists → World → Progress Lists × World)
      → (pre post : List String) → (progress : Progress Lists) → (w : World)
      → Live visit pre progress w
      → sweep host visit (pre ++ post) progress w
        ≡ sweep host visit post
            (visit_all visit pre progress w).0
            (visit_all visit pre progress w).1
  unfolding sweep
  sweep-visit_all visit [] post progress w live = refl
  sweep-visit_all visit (project ∷ projects) post progress w (now, later) = rw now (
      sweep-visit_all visit projects post (visit project progress w).0 (visit project progress w).1
        later)

  -- Where the context is live at every project, `Run` returns nil, keeps the projects and replaces the
  -- observations by what the projects, visited in order from empty lists, have given, with the number
  -- of errors counted and the time that passed. Where the context is done when a project's turn comes,
  -- `Run` returns its error there, visits no other project, and leaves the collector as it was.
  pub run_sweep_replaces :
      {Options : Type 0}
      → (empty : Lists) → (visit : String → Progress Lists → World → Progress Lists × World)
      → (c : Observer Options Lists F) → (pre post : List String) → (w : World)
      → c.projects ≡ pre ++ post
      → Live visit pre (initial empty) w
      → let (progress, w1) = visit_all visit pre (initial empty) w in
        (post ≡ []
          → run_sweep host empty visit c w ≡ (
            (
              none,
              record c {
                observations = record {
                  lists = progress.lists;
                  scrape_duration = host.seconds_between (host.now w) (host.now w1);
                  scrape_errors = progress.errors;
                };
              },
            ),
            w1,
          ))
        × ((project : String) (later : List String) (e : Error)
            → post ≡ project ∷ later
            → host.ctx_err w1 ≡ some e
            → run_sweep host empty visit c w ≡ ((some e, c), w1))
  unfolding run_sweep sweep replace
  run_sweep_replaces empty visit c pre post w split live = (
    λ end. rw (split, sweep-visit_all visit pre post (initial empty) w live, end) refl,
    λ project later e start done.
        rw (split, sweep-visit_all visit pre post (initial empty) w live, start, sweep, done) refl,
  )
