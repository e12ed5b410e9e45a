-- ===== src/Collector/Observations/Tests.antt =====
-- A context that is done after one project: the world counts the visits.
use amazing_gitlab_exporter.Base.{
  ℕ, ◌≡◌, refl, suc, ◌-◌, String, none, some, List, [], ◌∷◌, ◌++◌, leb, if◌then◌else◌,
}
use amazing_gitlab_exporter.Base.Errors.{Error, context}
use amazing_gitlab_exporter.Collector.Observations.{Observer, Host, Progress, run_sweep}
use amazing_gitlab_exporter.Collector.Observations.Replacement.{visit_all, run_sweep_replaces}

abbrev host : Host ℕ ℕ ℕ
host = record {
  ctx_err = λ w. if leb 1 w then some context else none;
  now = λ w. w;
  seconds_between = λ a b. b - a;
}

abbrev visit : String → Progress (List String) → ℕ → Progress (List String) × ℕ
visit project p w = (record p { lists = p.lists ++ project ∷ [] }, suc w)

abbrev collector : Observer Unit (List String) ℕ
collector = record {
  options = tt;
  projects = "g/a" ∷ "g/b" ∷ [];
  observations = record { lists = "old" ∷ []; scrape_duration = 5; scrape_errors = 2 };
}

abbrev initial : Progress (List String)
initial = record { lists = []; errors = 0 }

abbrev second : List String
second = "g/b" ∷ []

run_sweep_replaces_example :
    let (progress, w1) = visit_all host visit ("g/a" ∷ []) initial 0 in
    (second ≡ []
      → run_sweep host [] visit collector 0 ≡ (
        (
          none,
          record collector {
            observations = record {
              lists = progress.lists;
              scrape_duration = w1 - 0;
              scrape_errors = progress.errors;
            };
          },
        ),
        w1,
      ))
    × ((project : String) (later : List String) (e : Error)
        → second ≡ project ∷ later
        → host.ctx_err w1 ≡ some e
        → run_sweep host [] visit collector 0 ≡ ((some e, collector), w1))
run_sweep_replaces_example =
    run_sweep_replaces host [] visit collector ("g/a" ∷ []) second 0 refl (refl, tt)
