-- ===== src/Collector/Dora.antt =====
-- internal/collector/dora.go. The request is an `Endpoint` of the client library.
pub mod Bounds
pub mod Tiers
mod Tests
use amazing_gitlab_exporter.Base.{
  suc, String, Bool, Option, none, some, List, [], ◌∷◌, ◌++◌, ◌==◌, comparable_nat,
  comparable_string, if◌then◌else◌,
}
use amazing_gitlab_exporter.Base.Errors.{text, Error, Result, ok, err}
use amazing_gitlab_exporter.Config.{DoraCollectorConfig}
use amazing_gitlab_exporter.Gitlab.Tier.{DetectedFeatures, has_feature}
use amazing_gitlab_exporter.Gitlab.Api.{Reply, failed, refused, answered}
use amazing_gitlab_exporter.Collector.{float}
use amazing_gitlab_exporter.Collector.Observations.{
  LabeledGauge, Observer, Host, UrlPath, Endpoint, Progress, run_gated, gauge, Sample, send_gauges,
  send_scrape,
}

pub data Metric : Type 0 where
  deployment_frequency lead_time_for_changes time_to_restore change_failure_rate : Metric
  scrape_duration scrape_errors : Metric

-- The label names of the descriptors of `NewDORACollector`.
abbrev pub label_names : Metric → List String
label_names deployment_frequency = "project" ∷ "environment_tier" ∷ []
label_names lead_time_for_changes = "project" ∷ "environment_tier" ∷ []
label_names time_to_restore = "project" ∷ "environment_tier" ∷ []
label_names change_failure_rate = "project" ∷ "environment_tier" ∷ []
label_names scrape_duration = "collector_type" ∷ []
label_names scrape_errors = "collector_type" ∷ []

pub record DoraApiResponse (F : Type 0) : Type 0 where
  pub date : String
  pub value : F

pub record DoraLists (F : Type 0) : Type 0 where
  pub deployment_frequency : List (LabeledGauge F)
  pub lead_time_for_changes : List (LabeledGauge F)
  pub time_to_restore : List (LabeledGauge F)
  pub change_failure_rate : List (LabeledGauge F)

abbrev pub no_lists : {F : Type 0} → DoraLists F
no_lists = record {
  deployment_frequency = [];
  lead_time_for_changes = [];
  time_to_restore = [];
  change_failure_rate = [];
}

abbrev pub DoraCollector : Type 0 → Type 0
DoraCollector F = Observer DoraCollectorConfig (DoraLists F) F

-- The values that `metricType` runs through, in the order of `doraMetricTypes`.
pub data MetricType : Type 0 where
  deployments lead_time restore_time failure_rate : MetricType

abbrev pub metric_types : List MetricType
metric_types = deployments ∷ lead_time ∷ restore_time ∷ failure_rate ∷ []

abbrev pub metric_type_name : MetricType → String
metric_type_name deployments = "deployment_frequency"
metric_type_name lead_time = "lead_time_for_changes"
metric_type_name restore_time = "time_to_restore_service"
metric_type_name failure_rate = "change_failure_rate"

-- `if len(envTiers) == 0 { envTiers = []string{"production"} }`
pub environment_tiers : List String → List String
environment_tiers [] = "production" ∷ []
environment_tiers (tier ∷ tiers) = tier ∷ tiers

module _ {F : Type 0} where
  -- The last data point, if there is one.
  pub latest : List (DoraApiResponse F) → Option F
  latest [] = none
  latest (r ∷ []) = some r.value
  latest (r ∷ s ∷ rs) = latest (s ∷ rs)

  -- The `switch` on the metric's type.
  pub add_gauge : MetricType → LabeledGauge F → DoraLists F → DoraLists F
  add_gauge deployments g l = record l { deployment_frequency = l.deployment_frequency ++ g ∷ [] }
  add_gauge lead_time g l = record l { lead_time_for_changes = l.lead_time_for_changes ++ g ∷ [] }
  add_gauge restore_time g l = record l { time_to_restore = l.time_to_restore ++ g ∷ [] }
  add_gauge failure_rate g l = record l { change_failure_rate = l.change_failure_rate ++ g ∷ [] }

  pub record_latest :
      String → String → MetricType → Option F → Progress (DoraLists F) → Progress (DoraLists F)
  record_latest project tier type none p = p
  record_latest project tier type (some value) p = record p {
    lists = add_gauge type record { labels = project ∷ tier ∷ []; value = float value } p.lists;
  }

  -- What a run makes of one answer: 403 is no error.
  pub record_reply :
      String
      → String
      → MetricType
      → Reply (List (DoraApiResponse F))
      → Progress (DoraLists F)
      → Progress (DoraLists F)
  record_reply project tier type (answered response results) p =
      record_latest project tier type (latest results) p
  record_reply project tier type (failed e) p = record p { errors = suc p.errors }
  record_reply project tier type (refused response e) p =
      if response.status_code == 403 then p else record p { errors = suc p.errors }

  pub collect : DoraCollector F → List (Sample Metric F)
  collect c =
      let o = c.observations in
      send_gauges Metric.deployment_frequency gauge o.lists.deployment_frequency
      ++ send_gauges Metric.lead_time_for_changes gauge o.lists.lead_time_for_changes
      ++ send_gauges Metric.time_to_restore gauge o.lists.time_to_restore
      ++ send_gauges Metric.change_failure_rate gauge o.lists.change_failure_rate
      ++ send_scrape Metric.scrape_duration Metric.scrape_errors "dora" o

abbrev pub metrics_path : String → UrlPath
metrics_path project = record { format = "projects/%s/dora/metrics"; args = text project ∷ [] }

-- `doraOpt` as a query; an empty tier is omitted.
abbrev pub metrics_query : String → MetricType → List (String × String)
metrics_query tier type =
    ("metric", metric_type_name type) ∷ (if tier == "" then [] else ("environment_tier", tier) ∷ [])
    ++ (("interval", "daily") ∷ [])

module _ {World Request Time F : Type 0} (host : Host World Time F)
    (metrics : Endpoint World Request (List (DoraApiResponse F))) where
  pub send_request :
      String
      → String
      → MetricType
      → Result Request × World
      → Progress (DoraLists F)
      → Progress (DoraLists F) × World
  send_request project tier type (err e, w) p = (record p { errors = suc p.errors }, w)
  send_request project tier type (ok request, w) p =
      let (reply, w1) = metrics.send request w in (record_reply project tier type reply p, w1)

  pub visit_types :
      String
      → String
      → List MetricType
      → Progress (DoraLists F)
      → World
      → Progress (DoraLists F) × World
  visit_types project tier [] p w = (p, w)
  visit_types project tier (type ∷ types) p w =
      let made = metrics.new_request (metrics_path project) (metrics_query tier type) w in
      let (p1, w1) = send_request project tier type made p in visit_types project tier types p1 w1

  pub visit_tiers :
      String → List String → Progress (DoraLists F) → World → Progress (DoraLists F) × World
  visit_tiers project [] p w = (p, w)
  visit_tiers project (tier ∷ tiers) p w =
      let (p1, w1) = visit_types project tier metric_types p w in visit_tiers project tiers p1 w1

  -- `Run`; the features are those of the client.
  pub run :
      Option DetectedFeatures → DoraCollector F → World → (Option Error × DoraCollector F) × World
  run features c w =
      run_gated host (has_feature (λ f. f.has_dora) features) no_lists
        (λ project. visit_tiers project (environment_tiers c.options.environment_tiers)) c w
