-- ===== src/Collector/Jobs.antt =====
-- internal/collector/jobs.go. The client library's calls are parameters, and so is the arithmetic of
-- floating-point numbers.
pub mod Labels
mod Tests
use amazing_gitlab_exporter.Base.{
  ℕ, String, Bool, true, false, not, ◌||◌, Option, none, some, List, [], ◌∷◌, ◌++◌, ◌==◌,
  comparable_nat, comparable_string, if◌then◌else◌,
}
use amazing_gitlab_exporter.Base.Int.{ℤ, pos}
use amazing_gitlab_exporter.Base.Errors.{Error, wrap, text, Result, ok, err}
use amazing_gitlab_exporter.Collector.{whole, float, Op, observe, set, inc, Call, each}

pub data Metric : Type 0 where
  duration queued_duration status run_count artifact_size : Metric

-- The label names that `NewJobsCollector` makes each vector with.
abbrev pub label_names : Metric → List String
label_names duration = "project" ∷ "ref" ∷ "stage" ∷ "job_name" ∷ "runner_type" ∷ "status" ∷ []
label_names queued_duration = "project" ∷ "ref" ∷ "stage" ∷ "job_name" ∷ []
label_names status = "project" ∷ "ref" ∷ "stage" ∷ "job_name" ∷ "status" ∷ "failure_reason" ∷ []
label_names run_count = "project" ∷ "ref" ∷ "stage" ∷ "job_name" ∷ []
label_names artifact_size = "project" ∷ "ref" ∷ "stage" ∷ "job_name" ∷ []

pub record Runner : Type 0 where
  pub id : ℕ
  pub is_shared : Bool

-- The fields of `*gitlab.Job` that the collector reads; of its artifacts, the sizes.
pub record Job (F : Type 0) : Type 0 where
  pub ref : String
  pub stage : String
  pub name : String
  pub status : String
  pub failure_reason : String
  pub runner : Runner
  pub duration : F
  pub queued_duration : F
  pub artifacts : List ℤ

pub record JobsCollector : Type 0 where
  pub include_runner_details : Bool
  pub projects : List String

pub set_projects : JobsCollector → List String → JobsCollector
set_projects c projects = record c { projects = projects }

pub resolve_runner_type : Runner → Bool → String
resolve_runner_type runner include_details =
    if not include_details || runner.id == 0
    then "unknown"
    else if runner.is_shared
    then "instance"
    else "project"

-- What the collector uses of `float64`: zero, addition, conversion, and whether a number is above zero.
pub record JobFloats (F : Type 0) : Type 0 where
  pub zero_float : F
  pub add : F → F → F
  pub from_int : ℤ → F
  pub positive : F → Bool

module _ {F : Type 0} (floats : JobFloats F) where
  -- `for _, a := range j.Artifacts { totalArtifactSize += float64(a.Size) }`
  abbrev pub total_size : F → List ℤ → F
  total_size total [] = total
  total_size total (size ∷ sizes) = total_size (floats.add total (floats.from_int size)) sizes

  abbrev pub call : Metric → List String → Op F → Call Metric F
  call metric labels op = record { metric = metric; labels = labels; op = op }

  abbrev pub observed : Metric → List String → F → List (Call Metric F)
  observed metric labels d =
      if floats.positive d then call metric labels (observe (float d)) ∷ [] else []

  abbrev pub sized : List String → F → List (Call Metric F)
  sized labels size =
      if floats.positive size then call artifact_size labels (set (float size)) ∷ [] else []

  pub record_job : JobsCollector → String → Job F → List (Call Metric F)
  record_job c project j =
      let runner_type = resolve_runner_type j.runner c.include_runner_details in
      observed duration (project ∷ j.ref ∷ j.stage ∷ j.name ∷ runner_type ∷ j.status ∷ [])
        j.duration
      ++ observed queued_duration (project ∷ j.ref ∷ j.stage ∷ j.name ∷ []) j.queued_duration
      ++ call status (project ∷ j.ref ∷ j.stage ∷ j.name ∷ j.status ∷ j.failure_reason ∷ [])
          (set (whole (pos 1)))
        ∷ call run_count (project ∷ j.ref ∷ j.stage ∷ j.name ∷ []) inc
        ∷ sized (project ∷ j.ref ∷ j.stage ∷ j.name ∷ []) (total_size floats.zero_float j.artifacts)

-- The calls of the client library: the pipelines of a project by their ids, with the page size asked
-- for, and the jobs of a pipeline.
pub record JobsApi (World F : Type 0) : Type 0 where
  pub list_project_pipelines : String → ℕ → World → Result (List ℕ) × World
  pub list_pipeline_jobs : String → ℕ → World → Result (List (Job F)) × World

module _ {World F : Type 0} (api : JobsApi World F) (floats : JobFloats F) where
  pub record_jobs : JobsCollector → String → List (Job F) → List (Call Metric F)
  record_jobs c project [] = []
  record_jobs c project (j ∷ js) = record_job floats c project j ++ record_jobs c project js

  pub record_reply : JobsCollector → String → Result (List (Job F)) → List (Call Metric F)
  record_reply c project (err e) = []
  record_reply c project (ok jobs) = record_jobs c project jobs

  pub collect_pipeline : JobsCollector → String → ℕ → World → List (Call Metric F) × World
  collect_pipeline c project pipeline w =
      let (reply, w1) = api.list_pipeline_jobs project pipeline w in
      (record_reply c project reply, w1)

  pub collect_listed :
      JobsCollector
      → String
      → Result (List ℕ)
      → World
      → (List (Call Metric F) × Option Error) × World
  collect_listed c project (err e) w =
      (([], some (wrap "list pipelines for jobs in %s: %w" (text project ∷ []) e)), w)
  collect_listed c project (ok pipelines) w =
      let (calls, w1) = each (collect_pipeline c project) pipelines w in ((calls, none), w1)

  pub collect_project :
      JobsCollector → String → World → (List (Call Metric F) × Option Error) × World
  collect_project c project w =
      let (reply, w1) = api.list_project_pipelines project 20 w in collect_listed c project reply w1

  -- `Run`: the error of a project is logged, the next project follows, and the result is nil.
  abbrev pub run_project : JobsCollector → String → World → List (Call Metric F) × World
  run_project c project w = let ((calls, e), w1) = collect_project c project w in (calls, w1)

  pub run : JobsCollector → World → (List (Call Metric F) × Option Error) × World
  run c w = let (calls, w1) = each (run_project c) c.projects w in ((calls, none), w1)
