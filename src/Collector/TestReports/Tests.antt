-- ===== src/Collector/TestReports/Tests.antt =====
-- Two pipelines on one ref, the newer one listed first.
use amazing_gitlab_exporter.Base.{
  ℕ, ◌≡◌, refl, suc, comparable_nat, comparable_string, true, none, some, [], ◌∷◌,
}
use amazing_gitlab_exporter.Base.Int.{ℤ, pos}
use amazing_gitlab_exporter.Base.Errors.{ok}
use amazing_gitlab_exporter.Collector.{whole}
use amazing_gitlab_exporter.Collector.TestReports.{
  TestReport, Pipeline, TestReportsCollector, TestReportsApi, collect_project,
}
use amazing_gitlab_exporter.Collector.TestReports.Gauges.{total_count_after, last_listed_wins}

abbrev report : ℤ → TestReport ℕ
report total = record {
  total_time = 12;
  total_count = total;
  success_count = pos 2;
  failed_count = pos 1;
  skipped_count = pos 0;
  error_count = pos 0;
  test_suites =
      record {
        name = "unit";
        total_time = 12;
        total_count = total;
        test_cases = record { name = "adds"; status = "success"; execution_time = 3 } ∷ [];
      }
      ∷ [];
}

abbrev newer : Pipeline
newer = record { id = pos 9; ref = "main" }

abbrev older : Pipeline
older = record { id = pos 8; ref = "main" }

abbrev api : TestReportsApi ℕ ℕ
api = record {
  list_project_pipelines = λ project size w. (ok (newer ∷ older ∷ []), suc w);
  get_pipeline_test_report = λ project id w. (ok (report id), suc w);
}

abbrev collector : TestReportsCollector
collector = record { include_test_cases = true; projects = "g/a" ∷ [] }

last_listed_wins_example :
    total_count_after ("g/a" ∷ "main" ∷ []) none (collect_project api collector "g/a" 0).0.0
    ≡ some (whole (pos 8))
last_listed_wins_example =
    last_listed_wins api collector "g/a" older (newer ∷ []) [] 0 1 none (report (pos 8)) refl refl
      tt
