-- ===== src/Gitlab/Tier/Detection.antt =====
-- What the detected tier says of the instance.
use amazing_gitlab_exporter.Base.{
  ℕ, String, ◌≡◌, ◌↔◌, subst, Bool, true, false, ◌||◌, Option, none, some, arith, ◌==◌,
  comparable_nat, if◌then◌else◌,
}
use amazing_gitlab_exporter.Base.Errors.{Error, Result, ok, err}
use amazing_gitlab_exporter.Gitlab.Api.{Reply}
use amazing_gitlab_exporter.Gitlab.Tier.{
  DetectedFeatures, tier_free, tier_premium, tier_ultimate, dora_status, endpoint_status, status_of,
  concluded, derive_tier, probe_built, probe_dora, probe_endpoint, probe_value_stream,
  probe_mr_analytics, probe_code_review, check_version, detect_features, detect_with, detect,
}

tier_of_status :
    (status : ℕ)
    → derive_tier
        (dora_status status)
        (endpoint_status status)
        (endpoint_status status)
        (endpoint_status status)
      ≡ (if status == 403
          then tier_free
          else if status == 200 || status == 400 || status == 404 || status == 422
          then tier_ultimate
          else tier_premium)
unfolding derive_tier dora_status endpoint_status
tier_of_status status = ground arith

-- How the tier agrees with the flags.
abbrev TierAgrees : DetectedFeatures → Type 0
TierAgrees f =
    ((f.tier ≡ tier_ultimate) ↔ (f.has_dora ≡ true))
    × ((f.tier ≡ tier_free)
        ↔ ((f.has_dora || f.has_value_stream || f.has_mr_analytics || f.has_code_review) ≡ false))

module _ {W : Type 0} (new_request : String → Option Error)
    (do_get : String → W → Reply Unit × W) where
  detect_features-TierAgrees :
      (v : String) (w : W) → TierAgrees (detect_features new_request do_get v w).0
  unfolding detect_features derive_tier
  detect_features-TierAgrees v w = ground arith

  detect_with-TierAgrees :
      (x : Result String) (w : W) (f : DetectedFeatures)
      → (detect_with new_request do_get x w).0 ≡ ok f
      → TierAgrees f
  unfolding detect_with
  detect_with-TierAgrees (ok v) w f h =
      subst TierAgrees {x = (detect_features new_request do_get v w).0} {y = f} (cc)
        (detect_features-TierAgrees v w)
  detect_with-TierAgrees (err e) w f h = absurd (cc h)

  probe_built-status :
      (judge : ℕ → Bool) (path : String) (status : ℕ)
      → new_request path ≡ none
      → ((u : W) → status_of (do_get path u).0 ≡ some status)
      → (u : W) → (probe_built new_request do_get judge path (new_request path) u).0 ≡ judge status
  unfolding probe_built concluded
  probe_built-status judge path status builds answers u = rw (builds, answers u, probe_built)

module _ {W : Type 0} (new_request : String → Option Error) (do_get : String → W → Reply Unit × W)
    (get_version : W → Reply String × W) (w : W) where
  -- The tier of a detection agrees with its flags: it is Ultimate exactly with DORA metrics, and Free
  -- exactly with none of the four features.
  pub tier_of_features :
      (f : DetectedFeatures)
      → (detect new_request do_get get_version w).0 ≡ ok f
      → ((f.tier ≡ tier_ultimate) ↔ (f.has_dora ≡ true))
        × ((f.tier ≡ tier_free) ↔ (
            (f.has_dora || f.has_value_stream || f.has_mr_analytics || f.has_code_review) ≡ false))
  unfolding detect
  tier_of_features f h = detect_with-TierAgrees new_request do_get _ _ f h

  -- An instance that answers the version call, and every probe with one status, is Free if that is
  -- 403, Ultimate if it is 200, 400, 404 or 422, and Premium for any other: also for 401 or 500.
  pub detect_by_status :
      (status : ℕ) (v : String) (w' : W)
      → check_version get_version w ≡ (ok v, w')
      → ((path : String) → new_request path ≡ none)
      → ((path : String) (u : W) → status_of (do_get path u).0 ≡ some status)
      → (f : DetectedFeatures) × ((detect new_request do_get get_version w).0 ≡ ok f)
        × (f.tier ≡ (
            if status == 403
            then tier_free
            else if status == 200 || status == 400 || status == 404 || status == 422
            then tier_ultimate
            else tier_premium))
  unfolding detect detect_with detect_features probe_dora probe_endpoint probe_value_stream
      probe_mr_analytics probe_code_review
  detect_by_status status v w' version builds answers =
      let judged = λ (judge : ℕ → Bool) (path : String).
        probe_built-status new_request do_get judge path status (builds path) (answers path) in
      (
        (detect_features new_request do_get v w').0,
        rw (version, detect),
        rw
            (
              judged dora_status "projects/0/dora/metrics",
              judged endpoint_status "projects/0/analytics/value_stream_analytics/stages",
              judged endpoint_status "projects/0/analytics/merge_request_analytics",
              judged endpoint_status "projects/0/analytics/code_review",
            )
            (tier_of_status status),
      )
