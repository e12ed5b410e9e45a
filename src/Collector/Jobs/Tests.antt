-- ===== src/Collector/Jobs/Tests.antt =====
-- A project with two pipelines, the jobs of one of which cannot be listed.
use amazing_gitlab_exporter.Base.{ℕ, ◌+◌, true, leb, [], ◌∷◌, ◌==◌, comparable_nat, if◌then◌else◌}
use amazing_gitlab_exporter.Base.Int.{pos, pos_part}
use amazing_gitlab_exporter.Base.Errors.{foreign, ok, err}
use amazing_gitlab_exporter.Collector.Jobs.{JobFloats, Job, JobsCollector, JobsApi}

abbrev floats : JobFloats ℕ
floats = record { zero_float = 0; add = λ a b. a + b; from_int = pos_part; positive = λ a. leb 1 a }

abbrev job : Job ℕ
job = record {
  ref = "main";
  stage = "test";
  name = "unit";
  status = "failed";
  failure_reason = "script_failure";
  runner = record { id = 4; is_shared = true };
  duration = 61;
  queued_duration = 0;
  artifacts = pos 10 ∷ pos 20 ∷ [];
}

abbrev api : JobsApi ℕ ℕ
api = record {
  list_project_pipelines = λ project size w. (ok (7 ∷ 8 ∷ []), w);
  list_pipeline_jobs = λ project id w. (if id == 7 then ok (job ∷ []) else err (foreign "404"), w);
}

abbrev collector : JobsCollector
collector = record { include_runner_details = true; projects = "g/a" ∷ [] }
