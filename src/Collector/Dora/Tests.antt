-- ===== src/Collector/Dora/Tests.antt =====
-- Two tiers, of which the API knows one; the world counts the requests.
use amazing_gitlab_exporter.Base.{
  ℕ, ◌≡◌, ◌≢◌, refl, suc, ◌+◌, ◌-◌, ◌*◌, ◌≤◌, ◌==◌, comparable_nat, String, true, false, Option,
  none, some, List, [], ◌∷◌, if◌then◌else◌,
}
use amazing_gitlab_exporter.Base.Lists.{All, length}
use amazing_gitlab_exporter.Base.Int.{pos}
use amazing_gitlab_exporter.Base.Errors.{ok, foreign}
use amazing_gitlab_exporter.Gitlab.Api.{Response, refused, answered}
use amazing_gitlab_exporter.Gitlab.Tier.{DetectedFeatures, has_feature, tier_ultimate}
use amazing_gitlab_exporter.Collector.Observations.{Host, Endpoint, HasLabels}
use amazing_gitlab_exporter.Collector.Observations.Invariants.{run_gated-succeeds}
use amazing_gitlab_exporter.Collector.Dora.{
  DoraApiResponse, DoraCollector, label_names, no_lists, environment_tiers, collect, run,
}
use amazing_gitlab_exporter.Collector.Dora.Bounds.{size, run_bounded}
use amazing_gitlab_exporter.Collector.Dora.Tiers.{IsTiered, run-IsTiered}

abbrev host : Host ℕ ℕ ℕ
host = record { ctx_err = λ w. none; now = λ w. w; seconds_between = λ a b. b - a }

abbrev response : ℕ → Response
response status = record { status_code = status; next_page = 0; headers = λ name. "" }

abbrev endpoint : Endpoint ℕ ℕ (List (DoraApiResponse ℕ))
endpoint = record {
  new_request = λ path query w. (ok w, w);
  send = λ request w.
      if request == 2
      then (refused (response 403) (foreign "403 Forbidden"), suc w)
      else (answered (response 200) (record { date = "2024-01-01"; value = 7 } ∷ []), suc w);
}

abbrev collector : DoraCollector ℕ
collector = record {
  options = record {
    enabled = true;
    interval_seconds = pos 60;
    environment_tiers = "production" ∷ "staging" ∷ [];
  };
  projects = "g/a" ∷ [];
  observations = record { lists = no_lists; scrape_duration = 0; scrape_errors = 0 };
}

abbrev ultimate : Option DetectedFeatures
ultimate = some (record {
  has_dora = true;
  has_value_stream = true;
  has_mr_analytics = true;
  has_code_review = true;
  tier = tier_ultimate;
  gitlab_version = "17.5.0";
})

abbrev IsNamed : String → Type 0
IsNamed tier = tier ≢ ""

run_bounded_example :
    let o = ((run host endpoint ultimate collector 0).0.1).observations in
    (size o.lists + o.scrape_errors
      ≤ length collector.projects
        * (4 * length (environment_tiers collector.options.environment_tiers)))
    × (has_feature (λ f. f.has_dora) ultimate ≡ false → size o.lists + o.scrape_errors ≡ 0)
unfolding run
run_bounded_example =
    run_bounded host endpoint ultimate collector 0
      (run_gated-succeeds host true no_lists _ collector 0 (λ w. refl))

run-IsTiered_example :
    let after = (run host endpoint ultimate collector 0).0.1 in
    IsTiered IsNamed after.observations.lists × All (HasLabels label_names) (collect after)
unfolding environment_tiers
run-IsTiered_example =
    run-IsTiered host endpoint IsNamed ultimate collector 0
      (λ h. absurd (cc h), (λ h. absurd (cc h), tt)) (tt, tt, tt, tt)
