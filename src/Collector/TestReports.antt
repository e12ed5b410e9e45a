-- ===== src/Collector/TestReports.antt =====
-- internal/collector/test_reports.go. The client library's calls are parameters.
pub mod Labels
pub mod Gauges
mod Tests
use amazing_gitlab_exporter.Base.{
  ℕ, String, Bool, Option, none, some, List, [], ◌∷◌, ◌++◌, if◌then◌else◌,
}
use amazing_gitlab_exporter.Base.Int.{ℤ, pos}
use amazing_gitlab_exporter.Base.Errors.{Error, wrap, text, Result, ok, err}
use amazing_gitlab_exporter.Collector.{Value, whole, float, Op, observe, set, Call, each}

pub data Metric : Type 0 where
  total_time total_count success_count failed_count skipped_count error_count : Metric
  suite_duration suite_count case_duration case_status : Metric

-- The label names that `NewTestReportsCollector` makes each vector with.
abbrev pub label_names : Metric → List String
label_names total_time = "project" ∷ "ref" ∷ []
label_names total_count = "project" ∷ "ref" ∷ []
label_names success_count = "project" ∷ "ref" ∷ []
label_names failed_count = "project" ∷ "ref" ∷ []
label_names skipped_count = "project" ∷ "ref" ∷ []
label_names error_count = "project" ∷ "ref" ∷ []
label_names suite_duration = "project" ∷ "ref" ∷ "suite_name" ∷ []
label_names suite_count = "project" ∷ "ref" ∷ "suite_name" ∷ []
label_names case_duration = "project" ∷ "ref" ∷ "suite" ∷ "case_name" ∷ []
label_names case_status = "project" ∷ "ref" ∷ "suite" ∷ "case_name" ∷ "status" ∷ []

-- The fields of `*gitlab.PipelineTestReport` that the collector reads.
pub record TestCase (F : Type 0) : Type 0 where
  pub name : String
  pub status : String
  pub execution_time : F

pub record TestSuite (F : Type 0) : Type 0 where
  pub name : String
  pub total_time : F
  pub total_count : ℤ
  pub test_cases : List (TestCase F)

pub record TestReport (F : Type 0) : Type 0 where
  pub total_time : F
  pub total_count : ℤ
  pub success_count : ℤ
  pub failed_count : ℤ
  pub skipped_count : ℤ
  pub error_count : ℤ
  pub test_suites : List (TestSuite F)

pub record Pipeline : Type 0 where
  pub id : ℤ
  pub ref : String

pub record TestReportsCollector : Type 0 where
  pub include_test_cases : Bool
  pub projects : List String

pub set_projects : TestReportsCollector → List String → TestReportsCollector
set_projects c projects = record c { projects = projects }

module _ {F : Type 0} where
  abbrev pub call : Metric → List String → Op F → Call Metric F
  call metric labels op = record { metric = metric; labels = labels; op = op }

  pub record_cases : List String → List (TestCase F) → List (Call Metric F)
  record_cases labels [] = []
  record_cases labels (tc ∷ tcs) =
      call case_duration (labels ++ tc.name ∷ []) (observe (float tc.execution_time))
      ∷ call case_status (labels ++ tc.name ∷ tc.status ∷ []) (set (whole (pos 1)))
      ∷ record_cases labels tcs

  pub record_suites :
      TestReportsCollector → String → String → List (TestSuite F) → List (Call Metric F)
  record_suites c project ref [] = []
  record_suites c project ref (suite ∷ suites) =
      let labels = project ∷ ref ∷ suite.name ∷ [] in
      call suite_duration labels (set (float suite.total_time))
        ∷ call suite_count labels (set (whole suite.total_count))
        ∷ (if c.include_test_cases then record_cases labels suite.test_cases else [])
      ++ record_suites c project ref suites

  pub record_report : TestReportsCollector → String → String → TestReport F → List (Call Metric F)
  record_report c project ref r =
      call total_time (project ∷ ref ∷ []) (set (float r.total_time))
      ∷ call total_count (project ∷ ref ∷ []) (set (whole r.total_count))
      ∷ call success_count (project ∷ ref ∷ []) (set (whole r.success_count))
      ∷ call failed_count (project ∷ ref ∷ []) (set (whole r.failed_count))
      ∷ call skipped_count (project ∷ ref ∷ []) (set (whole r.skipped_count))
      ∷ call error_count (project ∷ ref ∷ []) (set (whole r.error_count))
      ∷ record_suites c project ref r.test_suites

-- The calls of the client library, the first with the page size asked for.
pub record TestReportsApi (World F : Type 0) : Type 0 where
  pub list_project_pipelines : String → ℕ → World → Result (List Pipeline) × World
  pub get_pipeline_test_report : String → ℤ → World → Result (TestReport F) × World

module _ {World F : Type 0} (api : TestReportsApi World F) where
  pub record_reply :
      TestReportsCollector → String → String → Result (TestReport F) → List (Call Metric F)
  record_reply c project ref (err e) = []
  record_reply c project ref (ok report) = record_report c project ref report

  pub collect_pipeline :
      TestReportsCollector → String → Pipeline → World → List (Call Metric F) × World
  collect_pipeline c project p w =
      let (reply, w1) = api.get_pipeline_test_report project p.id w in
      (record_reply c project p.ref reply, w1)

  pub collect_listed :
      TestReportsCollector
      → String
      → Result (List Pipeline) × World
      → (List (Call Metric F) × Option Error) × World
  collect_listed c project (err e, w) =
      (([], some (wrap "list pipelines for test reports in %s: %w" (text project ∷ []) e)), w)
  collect_listed c project (ok pipelines, w) =
      let (calls, w1) = each (collect_pipeline c project) pipelines w in ((calls, none), w1)

  pub collect_project :
      TestReportsCollector → String → World → (List (Call Metric F) × Option Error) × World
  collect_project c project w = collect_listed c project (api.list_project_pipelines project 10 w)

  -- `Run`: the error of a project is logged, the next project follows, and the result is nil.
  abbrev pub run_project : TestReportsCollector → String → World → List (Call Metric F) × World
  run_project c project w = let ((calls, e), w1) = collect_project c project w in (calls, w1)

  pub run : TestReportsCollector → World → (List (Call Metric F) × Option Error) × World
  run c w = let (calls, w1) = each (run_project c) c.projects w in ((calls, none), w1)
