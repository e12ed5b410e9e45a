-- ===== src/Collector/TestReports/Labels.antt =====
-- Every call of a run fits the metric it is made on.
use amazing_gitlab_exporter.Base.{
  ◌≡◌, refl, String, Bool, true, false, List, [], ◌∷◌, if◌then◌else◌,
}
use amazing_gitlab_exporter.Base.Lists.{All}
use amazing_gitlab_exporter.Base.Errors.{Result, ok, err}
use amazing_gitlab_exporter.Collector.{Call, IsLabelled, All-append, each-All}
use amazing_gitlab_exporter.Collector.TestReports.{
  Metric, case_duration, case_status, label_names, TestCase, TestSuite, TestReport, Pipeline,
  TestReportsCollector, TestReportsApi, record_cases, record_suites, record_report, record_reply,
  collect_pipeline, collect_listed, run_project, collect_project, run,
}

-- The metrics of single test cases.
abbrev pub of_case : Metric → Bool
of_case case_duration = true
of_case case_status = true
of_case metric = false

module _ {F : Type 0} where
  -- The call fits its metric, and is about a single case only if cases are included.
  abbrev pub IsSound : Bool → Call Metric F → Type 0
  IsSound included call =
      IsLabelled label_names call × (of_case call.metric ≡ true → included ≡ true)

  record_cases-IsSound :
      (project ref suite : String) (tcs : List (TestCase F))
      → All (IsSound true) (record_cases (project ∷ ref ∷ suite ∷ []) tcs)
  unfolding record_cases
  record_cases-IsSound project ref suite [] = tt
  record_cases-IsSound project ref suite (tc ∷ tcs) =
      ((refl, λ h. refl), ((refl, λ h. refl), record_cases-IsSound project ref suite tcs))

  included_cases-IsSound :
      (included : Bool) (project ref suite : String) (tcs : List (TestCase F))
      → All
          (IsSound included)
          (if included then record_cases (project ∷ ref ∷ suite ∷ []) tcs else [])
  included_cases-IsSound true project ref suite tcs = record_cases-IsSound project ref suite tcs
  included_cases-IsSound false project ref suite tcs = tt

  record_suites-IsSound :
      (c : TestReportsCollector) (project ref : String) (suites : List (TestSuite F))
      → All (IsSound c.include_test_cases) (record_suites c project ref suites)
  unfolding record_suites
  record_suites-IsSound c project ref [] = tt
  record_suites-IsSound c project ref (suite ∷ suites) = (
    (refl, λ h. absurd (cc h)),
    (
      (refl, λ h. absurd (cc h)),
      All-append (IsSound c.include_test_cases) _ _
          (included_cases-IsSound c.include_test_cases project ref suite.name suite.test_cases)
          (record_suites-IsSound c project ref suites),
    ),
  )

  record_report-IsSound :
      (c : TestReportsCollector) (project ref : String) (r : TestReport F)
      → All (IsSound c.include_test_cases) (record_report c project ref r)
  unfolding record_report
  record_report-IsSound c project ref r =
      let not_case : false ≡ true → c.include_test_cases ≡ true = λ h. absurd (cc h) in
      (
        (refl, not_case),
        (
          (refl, not_case),
          (
            (refl, not_case),
            (
              (refl, not_case),
              (
                (refl, not_case),
                ((refl, not_case), record_suites-IsSound c project ref r.test_suites),
              ),
            ),
          ),
        ),
      )

module _ {World F : Type 0} (api : TestReportsApi World F) where
  collect_pipeline-IsSound :
      (c : TestReportsCollector) (project : String) (p : Pipeline) (w : World)
      → All (IsSound c.include_test_cases) (collect_pipeline api c project p w).0
  unfolding collect_pipeline record_reply
  collect_pipeline-IsSound c project p w = go (api.get_pipeline_test_report project p.id w).0
    where
      go :
          (reply : Result (TestReport F))
          → All (IsSound c.include_test_cases) (record_reply api c project p.ref reply)
      go (err e) = tt
      go (ok report) = record_report-IsSound c project p.ref report

  run_project-IsSound :
      (c : TestReportsCollector) (project : String) (w : World)
      → All (IsSound c.include_test_cases) (run_project api c project w).0
  unfolding collect_project collect_listed
  run_project-IsSound c project w = go (api.list_project_pipelines project 10 w)
    where
      go :
          (listed : Result (List Pipeline) × World)
          → All (IsSound c.include_test_cases) (collect_listed api c project listed).0.0
      go (err e, w1) = tt
      go (ok pipelines, w1) =
          each-All (IsSound c.include_test_cases) (collect_pipeline api c project)
            (collect_pipeline-IsSound c project) pipelines w1

  -- Every call of a run has as many labels as its metric has label names, so `WithLabelValues` does not
  -- panic, and calls about single test cases are made only if the setting includes them.
  pub run_cases_included :
      (c : TestReportsCollector) (w : World) → All (IsSound c.include_test_cases) (run api c w).0.0
  unfolding run
  run_cases_included c w =
      each-All (IsSound c.include_test_cases) (run_project api c) (run_project-IsSound c) c.projects
        w
