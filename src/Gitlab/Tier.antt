-- ===== src/Gitlab/Tier.antt =====
-- internal/gitlab/tier_detector.go. The client library's `NewRequest`, `Do` and `GetVersion` are
-- parameters; a built request is its path.
pub mod Detection
mod Tests
use amazing_gitlab_exporter.Base.{
  ℕ, String, Bool, true, false, ◌||◌, Option, none, some, [], ◌∷◌, ◌==◌, comparable_nat,
  if◌then◌else◌,
}
use amazing_gitlab_exporter.Base.Int.{ℤ, pos}
use amazing_gitlab_exporter.Base.Errors.{num, Error, new, wrap, Result, ok, err}
use amazing_gitlab_exporter.Gitlab.Api.{Response, Reply, failed, refused, answered}

pub record DetectedFeatures : Type 0 where
  pub has_dora : Bool
  pub has_value_stream : Bool
  pub has_mr_analytics : Bool
  pub has_code_review : Bool
  pub tier : ℕ
  pub gitlab_version : String

-- `features != nil && features.HasX`
abbrev pub has_feature : (DetectedFeatures → Bool) → Option DetectedFeatures → Bool
has_feature flag none = false
has_feature flag (some features) = flag features

abbrev pub tier_free : ℕ
tier_free = 0

abbrev pub tier_premium : ℕ
tier_premium = 1

abbrev pub tier_ultimate : ℕ
tier_ultimate = 2

-- What `probeDORA` concludes from a status code.
pub dora_status : ℕ → Bool
dora_status status =
    if status == 403
    then false
    else status == 404 || status == 200 || status == 400 || status == 422

-- What `probeEndpoint` concludes from a status code.
pub endpoint_status : ℕ → Bool
endpoint_status status = if status == 403 then false else true

-- The status of a reply, if it has a response.
pub status_of : {A : Type 0} → Reply A → Option ℕ
status_of (failed e) = none
status_of (refused response e) = some response.status_code
status_of (answered response a) = some response.status_code

concluded : (ℕ → Bool) → Option ℕ → Bool
concluded judge none = false
concluded judge (some status) = judge status

pub derive_tier : Bool → Bool → Bool → Bool → ℕ
derive_tier dora value_stream mr_analytics code_review =
    if dora
    then tier_ultimate
    else if value_stream || mr_analytics || code_review
    then tier_premium
    else tier_free

pub tier_name : ℕ → String
tier_name tier =
    if tier == tier_premium then "Premium" else if tier == tier_ultimate then "Ultimate" else "Free"

pub version_reply : Reply String → Result String
version_reply (failed e) = err (wrap "GET /version: %w" [] e)
version_reply (refused response e) = err (wrap "GET /version: %w" [] e)
version_reply (answered response version) =
    if response.status_code == 200
    then ok version
    else err (new "GET /version: unexpected status %d" (num (pos response.status_code) ∷ []))

module _ {W : Type 0} where
  pub check_version : (W → Reply String × W) → W → Result String × W
  unfolding version_reply
  check_version get_version w = let (reply, w') = get_version w in (version_reply reply, w')

module _ {W : Type 0} (new_request : String → Option Error)
    (do_get : String → W → Reply Unit × W) where
  -- A probe builds a request, sends it, and judges the response's status.
  pub probe_built : (ℕ → Bool) → String → Option Error → W → Bool × W
  probe_built judge path (some e) w = (false, w)
  probe_built judge path none w =
      let (reply, w') = do_get path w in (concluded judge (status_of reply), w')

  pub probe_dora : W → Bool × W
  probe_dora =
      let path : String = "projects/0/dora/metrics" in
      probe_built dora_status path (new_request path)

  pub probe_endpoint : String → W → Bool × W
  probe_endpoint path = probe_built endpoint_status path (new_request path)

  pub probe_value_stream : W → Bool × W
  probe_value_stream = probe_endpoint "projects/0/analytics/value_stream_analytics/stages"

  pub probe_mr_analytics : W → Bool × W
  probe_mr_analytics = probe_endpoint "projects/0/analytics/merge_request_analytics"

  pub probe_code_review : W → Bool × W
  probe_code_review = probe_endpoint "projects/0/analytics/code_review"

  -- The probes, once the version is known.
  pub detect_features : String → W → DetectedFeatures × W
  detect_features version w =
      let (dora, w₁) = probe_dora w in
      let (value_stream, w₂) = probe_value_stream w₁ in
      let (mr_analytics, w₃) = probe_mr_analytics w₂ in
      let (code_review, w₄) = probe_code_review w₃ in
      (
        record {
          has_dora = dora;
          has_value_stream = value_stream;
          has_mr_analytics = mr_analytics;
          has_code_review = code_review;
          tier = derive_tier dora value_stream mr_analytics code_review;
          gitlab_version = version;
        },
        w₄,
      )

  pub detect_with : Result String → W → Result DetectedFeatures × W
  detect_with (err e) w = (err (wrap "tier detection: version check failed: %w" [] e), w)
  detect_with (ok version) w = let (features, w') = detect_features version w in (ok features, w')

  pub detect : (W → Reply String × W) → W → Result DetectedFeatures × W
  detect get_version w = let (version, w') = check_version get_version w in detect_with version w'
