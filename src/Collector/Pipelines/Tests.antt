-- ===== src/Collector/Pipelines/Tests.antt =====
-- A project with two pipelines, one of which cannot be fetched.
use amazing_gitlab_exporter.Base.{
  ℕ, String, Bool, true, false, ◌≡◌, refl, Option, none, some, List, [], ◌∷◌, ◌==◌, comparable_nat,
  if◌then◌else◌,
}
use amazing_gitlab_exporter.Base.Lists.{All}
use amazing_gitlab_exporter.Base.Int.{pos}
use amazing_gitlab_exporter.Base.Errors.{foreign, ok, err}
use amazing_gitlab_exporter.Collector.Pipelines.{
  Pipeline, PipelineInfo, PipelinesCollector, PipelinesApi, collect_listed, run,
}
use amazing_gitlab_exporter.Collector.Pipelines.Labels.{IsSound, run-IsSound}
use amazing_gitlab_exporter.Collector.Pipelines.Counts.{
  increments, answered_pipelines, with_labels, counts_answered,
}

abbrev info : ℕ → PipelineInfo
info id = record { id = id; project_id = 3; ref = "main"; status = "success" }

abbrev details : Pipeline
details = record {
  id = 7;
  ref = "main";
  source = "push";
  status = "success";
  duration = pos 61;
  queued_duration = pos 0;
  coverage = "93.5";
  created_at = some (pos 1700000000);
}

abbrev infos : List PipelineInfo
infos = info 7 ∷ info 8 ∷ []

abbrev api : PipelinesApi ℕ
api = record {
  list_project_pipelines = λ project size w. (ok infos, w);
  get_pipeline = λ project id w. (if id == 7 then ok details else err (foreign "404"), w);
  list_pipeline_bridges = λ project id w.
      (ok (record { name = "deploy"; downstream_pipeline = some (info 7) } ∷ []), w);
}

abbrev scan : String → Option ℕ
scan s = some 93

abbrev sprint : ℕ → String
sprint n = "3"

abbrev collector : Bool → PipelinesCollector
collector children = record {
  max_pipelines_per_ref = pos 10;
  include_child_pipelines = children;
  projects = "g/a" ∷ [];
}

run-IsSound_example : All IsSound (run api scan sprint (collector true) 0).0.0
run-IsSound_example = run-IsSound api scan sprint (collector true) 0

abbrev labels : List String
labels = "g/a" ∷ "main" ∷ "branch" ∷ "push" ∷ []

counts_answered_example :
    let ((calls, e), w1) = collect_listed api scan sprint (collector false) "g/a" (ok infos) 0 in
    (increments labels calls ≡ with_labels "g/a" labels (answered_pipelines api "g/a" infos 0))
    × (e ≡ none)
counts_answered_example =
    counts_answered api scan sprint (collector false) "g/a" infos 0 labels refl
