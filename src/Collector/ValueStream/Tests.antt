-- ===== src/Collector/ValueStream/Tests.antt =====
-- Two stages, the first without a name; the median of the second is not accessible.
use amazing_gitlab_exporter.Base.{
  ℕ, refl, suc, ◌+◌, ◌-◌, ◌==◌, comparable_nat, comparable_string, true, Option, none, some, [],
  ◌∷◌, if◌then◌else◌,
}
use amazing_gitlab_exporter.Base.Lists.{All}
use amazing_gitlab_exporter.Base.Int.{pos}
use amazing_gitlab_exporter.Base.Errors.{ok, foreign}
use amazing_gitlab_exporter.Gitlab.Api.{Response, refused, answered}
use amazing_gitlab_exporter.Gitlab.Tier.{DetectedFeatures, tier_ultimate}
use amazing_gitlab_exporter.Collector.Observations.{Host, HasLabels}
use amazing_gitlab_exporter.Collector.ValueStream.{
  VsaStageResponse, ValueStreamCollector, Analytics, label_names, no_lists, collect, run,
}
use amazing_gitlab_exporter.Collector.ValueStream.Totals.{HasTotals}
use amazing_gitlab_exporter.Collector.ValueStream.Runs.{run-HasTotals}

abbrev host : Host ℕ ℕ ℕ
host = record { ctx_err = λ w. none; now = λ w. w; seconds_between = λ a b. b - a }

abbrev response : ℕ → Response
response status = record { status_code = status; next_page = 0; headers = λ name. "" }

abbrev plan : VsaStageResponse
plan = record { id = pos 1; title = "Plan"; name = "" }

abbrev code : VsaStageResponse
code = record { id = pos 2; title = "Code"; name = "code" }

abbrev analytics : Analytics ℕ ℕ ℕ
analytics = record {
  streams = record {
    new_request = λ path query w. (ok w, w);
    send = λ request w.
        (answered (response 200) (record { id = pos 5; name = "default" } ∷ []), suc w);
  };
  stages = record {
    new_request = λ path query w. (ok w, w);
    send = λ request w. (answered (response 200) (plan ∷ code ∷ []), suc w);
  };
  median = record {
    new_request = λ path query w. (ok w, w);
    send = λ request w.
        if request == 2
        then (answered (response 200) record { id = pos 1; value = 40 }, suc w)
        else (refused (response 403) (foreign "403 Forbidden"), suc w);
  };
}

abbrev ultimate : Option DetectedFeatures
ultimate = some (record {
  has_dora = true;
  has_value_stream = true;
  has_mr_analytics = true;
  has_code_review = true;
  tier = tier_ultimate;
  gitlab_version = "17.5.0";
})

abbrev collector : ValueStreamCollector ℕ
collector = record {
  options = record { enabled = true; interval_seconds = pos 60 };
  projects = "g/a" ∷ [];
  observations = record { lists = no_lists; scrape_duration = 0; scrape_errors = 0 };
}

run-HasTotals_example :
    let after = (run host analytics 0 (λ a b. a + b) ultimate collector 0).0.1 in
    HasTotals 0 (λ a b. a + b) after.observations.lists
    × All (HasLabels label_names) (collect after)
run-HasTotals_example =
    run-HasTotals host analytics 0 (λ a b. a + b) ultimate collector 0 ([], refl, refl, refl)
