-- ===== src/Collector/Repository/Tests.antt =====
-- A project with one language and without statistics, and a pipeline whose coverage is no number.
use amazing_gitlab_exporter.Base.{
  ℕ, ◌≡◌, suc, ◌+◌, ◌-◌, ◌≤◌, comparable_nat, comparable_string, none, some, [], ◌∷◌, ◌++◌,
}
use amazing_gitlab_exporter.Base.Lists.{length}
use amazing_gitlab_exporter.Base.Int.{pos}
use amazing_gitlab_exporter.Base.Errors.{ok, err, foreign}
use amazing_gitlab_exporter.Collector.Observations.{Host, Progress}
use amazing_gitlab_exporter.Collector.Repository.{RepositoryLists, RepositoryApi, no_lists, visit}
use amazing_gitlab_exporter.Collector.Repository.Visits.{
  failures, languages_of, measured, visit_parts,
}

abbrev host : Host ℕ ℕ ℕ
host = record { ctx_err = λ w. none; now = λ w. w; seconds_between = λ a b. b - a }

abbrev api : RepositoryApi ℕ ℕ
api = record {
  get_project_languages = λ project w. (ok (some (("Go", 100) ∷ [])), suc w);
  get_project = λ project w. (err (foreign "500 Internal Server Error"), suc w);
  list_finished_pipelines = λ project w. (ok (pos 3 ∷ []), suc w);
  get_pipeline_coverage = λ project id w. (ok "n/a", suc w);
}

abbrev progress : Progress (RepositoryLists ℕ)
progress = record { lists = no_lists; errors = 0 }

visit_parts_example :
    let (languages, w1) = api.get_project_languages "g/a" 0 in
    let (detail, w2) = api.get_project "g/a" w1 in
    let after = (visit host api (λ text. none) "g/a" progress 0).0 in
    (after.errors ≡ progress.errors + failures languages + failures detail)
    × (after.lists.language_percentage
        ≡ progress.lists.language_percentage ++ languages_of "g/a" languages)
    × (length after.lists.size_bytes ≡ length progress.lists.size_bytes + measured detail)
    × (length after.lists.commit_count ≡ length progress.lists.commit_count + measured detail)
    × (length after.lists.coverage ≤ length progress.lists.coverage + 1)
visit_parts_example = visit_parts host api (λ text. none) "g/a" progress 0
