-- ===== src/Gitlab/Tier/Tests.antt =====
-- An instance that answers every probe with one status.
use amazing_gitlab_exporter.Base.{
  ℕ, String, ◌≡◌, refl, true, false, ◌||◌, Option, none, ◌==◌, comparable_nat, if◌then◌else◌,
}
use amazing_gitlab_exporter.Base.Errors.{Error, foreign, ok}
use amazing_gitlab_exporter.Gitlab.Api.{Response, Reply, refused, answered}
use amazing_gitlab_exporter.Gitlab.Tier.{
  DetectedFeatures, tier_free, tier_premium, tier_ultimate, status_of, version_reply, check_version,
  detect,
}
use amazing_gitlab_exporter.Gitlab.Tier.Detection.{detect_by_status}

abbrev response : ℕ → Response
response status = record { status_code = status; next_page = 0; headers = λ key. "" }

abbrev builds : String → Option Error
builds path = none

abbrev unauthorized : String → ℕ → Reply Unit × ℕ
unauthorized path w = (refused (response 401) (foreign "401 Unauthorized"), w)

abbrev version : ℕ → Reply String × ℕ
version w = (answered (response 200) "17.5.0", w)

abbrev status : ℕ
status = 401

detect_by_status_example :
    (f : DetectedFeatures) × ((detect builds unauthorized version 0).0 ≡ ok f)
    × (f.tier ≡ (
        if status == 403
        then tier_free
        else if status == 200 || status == 400 || status == 404 || status == 422
        then tier_ultimate
        else tier_premium))
unfolding check_version version_reply status_of
detect_by_status_example =
    detect_by_status builds unauthorized version 0 status "17.5.0" 0 refl (λ path. refl)
      (λ path u. refl)

abbrev found : DetectedFeatures
found = record {
  has_dora = false;
  has_value_stream = true;
  has_mr_analytics = true;
  has_code_review = true;
  tier = tier_premium;
  gitlab_version = "17.5.0";
}
