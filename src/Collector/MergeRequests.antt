-- ===== src/Collector/MergeRequests.antt =====
-- internal/collector/merge_requests.go, but for `emitHistograms`. The maps' entries are in the order
-- of their insertion, where Go's order is not specified.
pub mod Scan
mod Tests
use amazing_gitlab_exporter.Base.{
  ℕ, String, Option, List, [], ◌∷◌, ◌++◌, Comparable, comparable_string, map,
}
use amazing_gitlab_exporter.Base.Float.{Float64, whole_float}
use amazing_gitlab_exporter.Config.{MergeRequestsCollectorConfig}
use amazing_gitlab_exporter.Collector.Histograms.{LabeledValue, emit_histograms}
use amazing_gitlab_exporter.Collector.Listing.{Floats}
use amazing_gitlab_exporter.Collector.Observations.{
  LabeledGauge, Observer, gauge, counter, Sent, send_gauges, send_scrape, send_constants,
  send_histograms,
}

pub data Metric : Type 0 where
  time_to_merge time_to_first_review review_cycles changes_count status throughput : Metric
  notes_count open_duration scrape_duration scrape_errors : Metric

-- The label names of the descriptors of `NewMergeRequestsCollector`.
abbrev pub label_names : Metric → List String
label_names time_to_merge = "project" ∷ "target_branch" ∷ []
label_names time_to_first_review = "project" ∷ "target_branch" ∷ []
label_names review_cycles = "project" ∷ "target_branch" ∷ []
label_names changes_count = "project" ∷ "target_branch" ∷ []
label_names status = "project" ∷ "target_branch" ∷ "state" ∷ []
label_names throughput = "project" ∷ "target_branch" ∷ []
label_names notes_count = "project" ∷ "target_branch" ∷ []
label_names open_duration = "project" ∷ "target_branch" ∷ []
label_names scrape_duration = "collector_type" ∷ []
label_names scrape_errors = "collector_type" ∷ []

pub record MergeRequestLists (F : Type 0) : Type 0 where
  pub time_to_merge : List (LabeledValue F)
  pub time_to_first_review : List (LabeledValue F)
  pub review_cycles : List (LabeledValue F)
  pub changes_count : List (LabeledValue F)
  pub status : List (LabeledGauge F)
  pub throughput : List (LabeledGauge F)
  pub notes_count : List (LabeledValue F)
  pub open_duration : List (LabeledValue F)

abbrev pub no_lists : {F : Type 0} → MergeRequestLists F
no_lists = record {
  time_to_merge = [];
  time_to_first_review = [];
  review_cycles = [];
  changes_count = [];
  status = [];
  throughput = [];
  notes_count = [];
  open_duration = [];
}

abbrev pub MergeRequestsCollector : Type 0 → Type 0
MergeRequestsCollector F = Observer MergeRequestsCollectorConfig (MergeRequestLists F) F

abbrev pub default_mr_buckets : List Float64
default_mr_buckets =
    map whole_float
      (60 ∷ 300 ∷ 600 ∷ 1800 ∷ 3600 ∷ 7200 ∷ 14400 ∷ 28800 ∷ 43200 ∷ 86400 ∷ 172800 ∷ 604800 ∷ [])

-- `if len(buckets) == 0 { buckets = defaultMRBuckets }`
pub buckets_of : List Float64 → List Float64
buckets_of [] = default_mr_buckets
buckets_of (b ∷ bs) = b ∷ bs

-- `Collect`; `def_buckets` is `prometheus.DefBuckets`.
pub collect :
    {F : Type 0}
    → ⦃e : Comparable F⦄ → Floats F
    → List F
    → MergeRequestsCollector F
    → List (Sent Metric F)
collect floats def_buckets c =
    let o = c.observations in
    let buckets = map floats.from_float (buckets_of c.options.histogram_buckets) in
    let emit = emit_histograms floats.zero_float floats.add floats.le floats.accepts in
    send_histograms Metric.time_to_merge (emit o.lists.time_to_merge buckets)
    ++ send_histograms Metric.time_to_first_review (emit o.lists.time_to_first_review buckets)
    ++ send_histograms Metric.review_cycles (emit o.lists.review_cycles def_buckets)
    ++ send_histograms Metric.changes_count (emit o.lists.changes_count def_buckets)
    ++ send_histograms Metric.notes_count (emit o.lists.notes_count def_buckets)
    ++ send_histograms Metric.open_duration (emit o.lists.open_duration buckets)
    ++ send_constants (
        send_gauges Metric.status gauge o.lists.status
        ++ send_gauges Metric.throughput counter o.lists.throughput
        ++ send_scrape Metric.scrape_duration Metric.scrape_errors "merge_requests" o)
