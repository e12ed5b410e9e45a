-- ===== src/Collector/Environments/Tests.antt =====
-- Two environments, one of them stopped; numbers stand for floating-point ones.
use amazing_gitlab_exporter.Base.{ℕ, suc, ltb, true, ◌≡◌, refl, List, [], ◌∷◌}
use amazing_gitlab_exporter.Base.Errors.{ok}
use amazing_gitlab_exporter.Collector.{each}
use amazing_gitlab_exporter.Collector.Environments.{
  Environment, EnvironmentsCollector, EnvironmentsApi, collect_environment,
}
use amazing_gitlab_exporter.Collector.Environments.Stopped.{without_stopped, stopped_excluded}

abbrev environments : List Environment
environments =
    record { name = "review/1"; state = "stopped"; tier = "development" }
    ∷ record { name = "production"; state = "available"; tier = "" }
    ∷ []

-- Each call counts as one in the world.
abbrev api : EnvironmentsApi ℕ ℕ
api = record {
  list_environments = λ project size w. (ok environments, suc w);
  list_project_deployments = λ project env size w.
      (ok (record { status = "success"; deployable_id = 5; deployable_duration = 61 } ∷ []), suc w);
}

abbrev collector : EnvironmentsCollector
collector = record { exclude_stopped = true; projects = "g/a" ∷ [] }

stopped_excluded_example :
    each (collect_environment api (ltb 0) collector "g/a") environments 0
    ≡ each (collect_environment api (ltb 0) collector "g/a") (without_stopped environments) 0
stopped_excluded_example = stopped_excluded api (ltb 0) collector "g/a" environments 0 refl
