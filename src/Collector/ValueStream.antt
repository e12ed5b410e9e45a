-- ===== src/Collector/ValueStream.antt =====
-- internal/collector/value_stream.go. The requests are three `Endpoint`s of the client library, and
-- the zero and the sum of floating-point numbers are parameters.
pub mod Totals
pub mod Runs
mod Tests
use amazing_gitlab_exporter.Base.{
  suc, String, Bool, ◌||◌, Option, List, [], ◌∷◌, ◌++◌, ◌==◌, comparable_nat, comparable_string,
  if◌then◌else◌,
}
use amazing_gitlab_exporter.Base.Int.{ℤ}
use amazing_gitlab_exporter.Base.Errors.{num, text, Error, Result, ok, err}
use amazing_gitlab_exporter.Config.{PlainCollectorConfig}
use amazing_gitlab_exporter.Gitlab.Api.{Reply, failed, refused, answered}
use amazing_gitlab_exporter.Gitlab.Tier.{DetectedFeatures, has_feature}
use amazing_gitlab_exporter.Collector.{float}
use amazing_gitlab_exporter.Collector.Observations.{
  LabeledGauge, Observer, Host, UrlPath, Endpoint, Progress, run_gated, gauge, Sample, send_gauges,
  send_scrape,
}

pub data Metric : Type 0 where
  stage_duration cycle_time lead_time scrape_duration scrape_errors : Metric

-- The label names of the descriptors of `NewValueStreamCollector`.
abbrev pub label_names : Metric → List String
label_names stage_duration = "project" ∷ "stage_name" ∷ []
label_names cycle_time = "project" ∷ []
label_names lead_time = "project" ∷ []
label_names scrape_duration = "collector_type" ∷ []
label_names scrape_errors = "collector_type" ∷ []

pub record VsaStageResponse : Type 0 where
  pub id : ℤ
  pub title : String
  pub name : String

pub record VsaStageMedianResponse (F : Type 0) : Type 0 where
  pub id : ℤ
  pub value : F

pub record VsaValueStreamResponse : Type 0 where
  pub id : ℤ
  pub name : String

pub record ValueStreamLists (F : Type 0) : Type 0 where
  pub stage_duration : List (LabeledGauge F)
  pub cycle_time : List (LabeledGauge F)
  pub lead_time : List (LabeledGauge F)

abbrev pub no_lists : {F : Type 0} → ValueStreamLists F
no_lists = record { stage_duration = []; cycle_time = []; lead_time = [] }

abbrev pub ValueStreamCollector : Type 0 → Type 0
ValueStreamCollector F = Observer PlainCollectorConfig (ValueStreamLists F) F

pub stage_name : VsaStageResponse → String
stage_name stage = if stage.name == "" then stage.title else stage.name

abbrev pub streams_path : String → UrlPath
streams_path project = record {
  format = "projects/%s/analytics/value_stream_analytics/value_streams";
  args = text project ∷ [];
}

abbrev pub stages_path : String → ℤ → UrlPath
stages_path project stream = record {
  format = "projects/%s/analytics/value_stream_analytics/value_streams/%d/stages";
  args = text project ∷ num stream ∷ [];
}

abbrev pub median_path : String → ℤ → ℤ → UrlPath
median_path project stream stage = record {
  format = "projects/%s/analytics/value_stream_analytics/value_streams/%d/stages/%d/median";
  args = text project ∷ num stream ∷ num stage ∷ [];
}

pub collect : {F : Type 0} → ValueStreamCollector F → List (Sample Metric F)
collect c =
    let o = c.observations in
    send_gauges Metric.stage_duration gauge o.lists.stage_duration
    ++ send_gauges Metric.cycle_time gauge o.lists.cycle_time
    ++ send_gauges Metric.lead_time gauge o.lists.lead_time
    ++ send_scrape Metric.scrape_duration Metric.scrape_errors "value_stream" o

abbrev pub one_more : {Lists : Type 0} → Progress Lists → Progress Lists
one_more p = record p { errors = suc p.errors }

module _ {F : Type 0} (add : F → F → F) where
  -- A median that cannot be fetched is logged and not counted.
  pub record_median :
      String
      → String
      → Reply (VsaStageMedianResponse F)
      → Progress (ValueStreamLists F) × F
      → Progress (ValueStreamLists F) × F
  record_median project stage (failed e) (p, total) = (p, total)
  record_median project stage (refused response e) (p, total) = (p, total)
  record_median project stage (answered response median) (p, total) = (
    record p {
      lists = record p.lists {
        stage_duration =
            p.lists.stage_duration
            ++ record { labels = project ∷ stage ∷ []; value = float median.value } ∷ [];
      };
    },
    add total median.value,
  )

-- The cycle time of the project, which is its lead time as well.
pub record_total :
    {F : Type 0} → String → Progress (ValueStreamLists F) × F → Progress (ValueStreamLists F)
record_total project (p, total) = record p {
  lists = record p.lists {
    cycle_time = p.lists.cycle_time ++ record { labels = project ∷ []; value = float total } ∷ [];
    lead_time = p.lists.lead_time ++ record { labels = project ∷ []; value = float total } ∷ [];
  };
}

-- The three endpoints.
pub record Analytics (World Request F : Type 0) : Type 0 where
  pub streams : Endpoint World Request (List VsaValueStreamResponse)
  pub stages : Endpoint World Request (List VsaStageResponse)
  pub median : Endpoint World Request (VsaStageMedianResponse F)

module _ {World Request Time F : Type 0} (host : Host World Time F)
    (api : Analytics World Request F) (zero_float : F) (add : F → F → F) where
  pub send_median :
      String
      → String
      → Result Request × World
      → Progress (ValueStreamLists F) × F
      → (Progress (ValueStreamLists F) × F) × World
  send_median project stage (err e, w) (p, total) = ((one_more p, total), w)
  send_median project stage (ok request, w) (p, total) =
      let (reply, w1) = api.median.send request w in
      (record_median add project stage reply (p, total), w1)

  -- `totalCycleTime` goes along with the progress.
  pub visit_stages :
      String
      → ℤ
      → List VsaStageResponse
      → Progress (ValueStreamLists F) × F
      → World
      → (Progress (ValueStreamLists F) × F) × World
  visit_stages project stream [] (p, total) w = ((p, total), w)
  visit_stages project stream (stage ∷ stages) (p, total) w =
      let made = api.median.new_request (median_path project stream stage.id) [] w in
      let (next, w1) = send_median project (stage_name stage) made (p, total) in
      visit_stages project stream stages next w1

  pub visit_listed :
      String
      → ℤ
      → Reply (List VsaStageResponse)
      → Progress (ValueStreamLists F)
      → World
      → Progress (ValueStreamLists F) × World
  visit_listed project stream (failed e) p w = (one_more p, w)
  visit_listed project stream (refused response e) p w = (one_more p, w)
  visit_listed project stream (answered response stages) p w =
      let (summed, w1) = visit_stages project stream stages (p, zero_float) w in
      (record_total project summed, w1)

  pub send_stages :
      String
      → ℤ
      → Result Request × World
      → Progress (ValueStreamLists F)
      → Progress (ValueStreamLists F) × World
  send_stages project stream (err e, w) p = (one_more p, w)
  send_stages project stream (ok request, w) p =
      let (reply, w1) = api.stages.send request w in visit_listed project stream reply p w1

  -- The first value stream is the one that counts; 403 and 404 are no errors here.
  pub visit_streams :
      String
      → Reply (List VsaValueStreamResponse)
      → Progress (ValueStreamLists F)
      → World
      → Progress (ValueStreamLists F) × World
  visit_streams project (failed e) p w = (one_more p, w)
  visit_streams project (refused response e) p w =
      if response.status_code == 403 || response.status_code == 404 then (p, w) else (one_more p, w)
  visit_streams project (answered response []) p w = (p, w)
  visit_streams project (answered response (stream ∷ streams)) p w =
      send_stages project stream.id (api.stages.new_request (stages_path project stream.id) [] w) p

  pub send_streams :
      String
      → Result Request × World
      → Progress (ValueStreamLists F)
      → Progress (ValueStreamLists F) × World
  send_streams project (err e, w) p = (one_more p, w)
  send_streams project (ok request, w) p =
      let (reply, w1) = api.streams.send request w in visit_streams project reply p w1

  pub visit : String → Progress (ValueStreamLists F) → World → Progress (ValueStreamLists F) × World
  visit project p w = send_streams project (api.streams.new_request (streams_path project) [] w) p

  -- `Run`; the features are those of the client.
  pub run :
      Option DetectedFeatures
      → ValueStreamCollector F
      → World
      → (Option Error × ValueStreamCollector F) × World
  run features c w =
      run_gated host (has_feature (λ f. f.has_value_stream) features) no_lists visit c w
