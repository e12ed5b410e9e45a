-- ===== src/Collector/Repository.antt =====
-- internal/collector/repository.go. The client library's calls and `strconv.ParseFloat` are parameters;
-- the languages come in the order in which the map is read.
pub mod Visits
mod Tests
use amazing_gitlab_exporter.Base.{
  ℕ, suc, String, Option, none, some, List, [], ◌∷◌, ◌++◌, ◌==◌, comparable_string, if◌then◌else◌,
}
use amazing_gitlab_exporter.Base.Int.{ℤ}
use amazing_gitlab_exporter.Base.Dict.{Dict}
use amazing_gitlab_exporter.Base.Errors.{Error, Result, ok, err}
use amazing_gitlab_exporter.Config.{PlainCollectorConfig}
use amazing_gitlab_exporter.Collector.{whole, float}
use amazing_gitlab_exporter.Collector.Observations.{
  LabeledGauge, Observer, Host, Progress, run_sweep, gauge, Sample, send_gauges, send_scrape,
}

pub data Metric : Type 0 where
  language_percentage commit_count size_bytes coverage scrape_duration scrape_errors : Metric

-- The label names of the descriptors of `NewRepositoryCollector`.
abbrev pub label_names : Metric → List String
label_names language_percentage = "project" ∷ "language" ∷ []
label_names commit_count = "project" ∷ "ref" ∷ []
label_names size_bytes = "project" ∷ []
label_names coverage = "project" ∷ []
label_names scrape_duration = "collector_type" ∷ []
label_names scrape_errors = "collector_type" ∷ []

pub record RepositoryLists (F : Type 0) : Type 0 where
  pub language_percentage : List (LabeledGauge F)
  pub commit_count : List (LabeledGauge F)
  pub size_bytes : List (LabeledGauge F)
  pub coverage : List (LabeledGauge F)

abbrev pub no_lists : {F : Type 0} → RepositoryLists F
no_lists = record { language_percentage = []; commit_count = []; size_bytes = []; coverage = [] }

abbrev pub RepositoryCollector : Type 0 → Type 0
RepositoryCollector F = Observer PlainCollectorConfig (RepositoryLists F) F

-- The fields of `*gitlab.Project` that the collector reads, and its statistics, if there are any.
pub record Statistics : Type 0 where
  pub repository_size : ℤ
  pub commit_count : ℤ

pub record ProjectDetail : Type 0 where
  pub default_branch : String
  pub statistics : Option Statistics

-- The calls of the client library: the languages, the project with its statistics, the ids of the
-- finished pipelines (the one updated last), and the coverage of a pipeline.
pub record RepositoryApi (World F : Type 0) : Type 0 where
  pub get_project_languages : String → World → Result (Option (Dict String F)) × World
  pub get_project : String → World → Result (Option ProjectDetail) × World
  pub list_finished_pipelines : String → World → Result (List ℤ) × World
  pub get_pipeline_coverage : String → ℤ → World → Result String × World

module _ {F : Type 0} where
  abbrev pub language_gauges : String → Dict String F → List (LabeledGauge F)
  language_gauges project [] = []
  language_gauges project ((language, pct) ∷ languages) =
      record { labels = project ∷ language ∷ []; value = float pct }
      ∷ language_gauges project languages

  pub record_languages :
      String
      → Result (Option (Dict String F))
      → Progress (RepositoryLists F)
      → Progress (RepositoryLists F)
  record_languages project (err e) p = record p { errors = suc p.errors }
  record_languages project (ok none) p = p
  record_languages project (ok (some languages)) p = record p {
    lists = record p.lists {
      language_percentage = p.lists.language_percentage ++ language_gauges project languages;
    };
  }

  pub record_statistics :
      String → String → Option Statistics → RepositoryLists F → RepositoryLists F
  record_statistics project branch none l = l
  record_statistics project branch (some s) l = record l {
    size_bytes =
        l.size_bytes ++ record { labels = project ∷ []; value = whole s.repository_size } ∷ [];
    commit_count =
        l.commit_count
        ++ record { labels = project ∷ branch ∷ []; value = whole s.commit_count } ∷ [];
  }

  pub record_project :
      String
      → Result (Option ProjectDetail)
      → Progress (RepositoryLists F)
      → Progress (RepositoryLists F)
  record_project project (err e) p = record p { errors = suc p.errors }
  record_project project (ok none) p = p
  record_project project (ok (some detail)) p = record p {
    lists = record_statistics project detail.default_branch detail.statistics p.lists;
  }

  pub record_coverage : String → Option F → RepositoryLists F → RepositoryLists F
  record_coverage project none l = l
  record_coverage project (some value) l = record l {
    coverage = l.coverage ++ record { labels = project ∷ []; value = float value } ∷ [];
  }

  pub collect : RepositoryCollector F → List (Sample Metric F)
  collect c =
      let o = c.observations in
      send_gauges Metric.language_percentage gauge o.lists.language_percentage
      ++ send_gauges Metric.commit_count gauge o.lists.commit_count
      ++ send_gauges Metric.size_bytes gauge o.lists.size_bytes
      ++ send_gauges Metric.coverage gauge o.lists.coverage
      ++ send_scrape Metric.scrape_duration Metric.scrape_errors "repository" o

module _ {World Time F : Type 0} (host : Host World Time F) (api : RepositoryApi World F)
    (parse_float : String → Option F) where
  -- An empty coverage and one that is no number are left out.
  pub record_pipeline :
      String → Result String → Progress (RepositoryLists F) → Progress (RepositoryLists F)
  record_pipeline project (err e) p = p
  record_pipeline project (ok text) p =
      if text == ""
      then p
      else record p { lists = record_coverage project (parse_float text) p.lists }

  -- Failures here are logged, if at all, and not counted.
  pub visit_pipelines :
      String
      → Result (List ℤ) × World
      → Progress (RepositoryLists F)
      → Progress (RepositoryLists F) × World
  visit_pipelines project (err e, w) p = (p, w)
  visit_pipelines project (ok [], w) p = (p, w)
  visit_pipelines project (ok (id ∷ ids), w) p =
      let (reply, w1) = api.get_pipeline_coverage project id w in
      (record_pipeline project reply p, w1)

  pub visit : String → Progress (RepositoryLists F) → World → Progress (RepositoryLists F) × World
  visit project p w =
      let (languages, w1) = api.get_project_languages project w in
      let (detail, w2) = api.get_project project w1 in
      visit_pipelines project (api.list_finished_pipelines project w2)
        (record_project project detail (record_languages project languages p))

  pub run : RepositoryCollector F → World → (Option Error × RepositoryCollector F) × World
  run c w = run_sweep host no_lists visit c w
