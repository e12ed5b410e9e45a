-- ===== src/Collector/Contributors/Tests.antt =====
-- Two contributors, the second without a name; the world counts the requests.
use amazing_gitlab_exporter.Base.{ℕ, refl, suc, ◌-◌, true, none, List, [], ◌∷◌}
use amazing_gitlab_exporter.Base.Lists.{All}
use amazing_gitlab_exporter.Base.Int.{pos}
use amazing_gitlab_exporter.Base.Errors.{ok}
use amazing_gitlab_exporter.Gitlab.Api.{Response, answered}
use amazing_gitlab_exporter.Collector.Observations.{Host, Endpoint, HasLabels}
use amazing_gitlab_exporter.Collector.Contributors.{
  ContributorResponse, ContributorsCollector, label_names, no_lists, collect, run,
}
use amazing_gitlab_exporter.Collector.Contributors.Aligned.{IsAligned, run-IsAligned}

abbrev host : Host ℕ ℕ ℕ
host = record { ctx_err = λ w. none; now = λ w. w; seconds_between = λ a b. b - a }

abbrev ada : ContributorResponse
ada = record {
  name = "Ada";
  email = "ada@example.org";
  commits = pos 3;
  additions = pos 20;
  deletions = pos 4;
}

abbrev nameless : ContributorResponse
nameless = record ada { name = "" }

abbrev response : Response
response = record { status_code = 200; next_page = 0; headers = λ name. "" }

abbrev endpoint : Endpoint ℕ ℕ (List ContributorResponse)
endpoint = record {
  new_request = λ path query w. (ok 0, w);
  send = λ request w. (answered response (ada ∷ nameless ∷ []), suc w);
}

abbrev collector : ContributorsCollector ℕ
collector = record {
  options = record { enabled = true; interval_seconds = pos 60 };
  projects = "g/a" ∷ "g/b" ∷ [];
  observations = record { lists = no_lists; scrape_duration = 0; scrape_errors = 0 };
}

run-IsAligned_example :
    let after = (run host endpoint collector 0).0.1 in
    IsAligned after.observations.lists × All (HasLabels label_names) (collect after)
run-IsAligned_example = run-IsAligned host endpoint collector 0 (tt, tt, tt, refl, refl)
