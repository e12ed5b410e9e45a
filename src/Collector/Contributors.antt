-- ===== src/Collector/Contributors.antt =====
-- internal/collector/contributors.go. The request is an `Endpoint` of the client library.
pub mod Aligned
mod Tests
use amazing_gitlab_exporter.Base.{
  suc, ◌+◌, String, Bool, Option, none, some, List, [], ◌∷◌, ◌++◌, ◌==◌, comparable_nat,
  comparable_string, if◌then◌else◌,
}
use amazing_gitlab_exporter.Base.Int.{ℤ}
use amazing_gitlab_exporter.Base.Errors.{text, Error, Result, ok, err}
use amazing_gitlab_exporter.Config.{PlainCollectorConfig}
use amazing_gitlab_exporter.Gitlab.Api.{Reply, failed, refused, answered}
use amazing_gitlab_exporter.Collector.{whole}
use amazing_gitlab_exporter.Collector.Observations.{
  LabeledGauge, Observer, Host, Endpoint, Progress, run_sweep, gauge, Sample, send_gauges,
  send_scrape,
}

pub data Metric : Type 0 where
  commits_count additions deletions scrape_duration scrape_errors : Metric

-- The label names of the descriptors of `NewContributorsCollector`.
abbrev pub label_names : Metric → List String
label_names commits_count = "project" ∷ "author" ∷ []
label_names additions = "project" ∷ "author" ∷ []
label_names deletions = "project" ∷ "author" ∷ []
label_names scrape_duration = "collector_type" ∷ []
label_names scrape_errors = "collector_type" ∷ []

pub record ContributorResponse : Type 0 where
  pub name : String
  pub email : String
  pub commits : ℤ
  pub additions : ℤ
  pub deletions : ℤ

pub record ContributorsLists (F : Type 0) : Type 0 where
  pub commits_count : List (LabeledGauge F)
  pub additions : List (LabeledGauge F)
  pub deletions : List (LabeledGauge F)

abbrev pub no_lists : {F : Type 0} → ContributorsLists F
no_lists = record { commits_count = []; additions = []; deletions = [] }

abbrev pub ContributorsCollector : Type 0 → Type 0
ContributorsCollector F = Observer PlainCollectorConfig (ContributorsLists F) F

pub author_of : ContributorResponse → String
author_of r = if r.name == "" then r.email else r.name

module _ {F : Type 0} where
  abbrev pub labeled : String → ContributorResponse → ℤ → LabeledGauge F
  labeled project r n = record { labels = project ∷ author_of r ∷ []; value = whole n }

  pub record_contributors :
      String → List ContributorResponse → ContributorsLists F → ContributorsLists F
  record_contributors project [] l = l
  record_contributors project (r ∷ rs) l = record_contributors project rs record {
    commits_count = l.commits_count ++ labeled project r r.commits ∷ [];
    additions = l.additions ++ labeled project r r.additions ∷ [];
    deletions = l.deletions ++ labeled project r r.deletions ∷ [];
  }

  -- What a run makes of the answer for a project: 404 is no error.
  pub record_reply :
      String
      → Reply (List ContributorResponse)
      → Progress (ContributorsLists F)
      → Progress (ContributorsLists F)
  record_reply project (answered response contributors) p = record p {
    lists = record_contributors project contributors p.lists;
  }
  record_reply project (failed e) p = record p { errors = suc p.errors }
  record_reply project (refused response e) p =
      if response.status_code == 404 then p else record p { errors = suc p.errors }

  pub collect : ContributorsCollector F → List (Sample Metric F)
  collect c =
      let o = c.observations in
      send_gauges Metric.commits_count gauge o.lists.commits_count
      ++ send_gauges Metric.additions gauge o.lists.additions
      ++ send_gauges Metric.deletions gauge o.lists.deletions
      ++ send_scrape Metric.scrape_duration Metric.scrape_errors "contributors" o

module _ {World Request Time F : Type 0} (host : Host World Time F)
    (contributors : Endpoint World Request (List ContributorResponse)) where
  pub send_request :
      String
      → Result Request × World
      → Progress (ContributorsLists F)
      → Progress (ContributorsLists F) × World
  send_request project (err e, w) p = (record p { errors = suc p.errors }, w)
  send_request project (ok request, w) p =
      let (reply, w1) = contributors.send request w in (record_reply project reply p, w1)

  pub visit :
      String → Progress (ContributorsLists F) → World → Progress (ContributorsLists F) × World
  visit project p w =
      send_request project
        (contributors.new_request
          record { format = "projects/%s/repository/contributors"; args = text project ∷ [] } [] w)
        p

  pub run : ContributorsCollector F → World → (Option Error × ContributorsCollector F) × World
  run c w = run_sweep host no_lists visit c w
