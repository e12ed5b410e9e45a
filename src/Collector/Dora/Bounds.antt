-- ===== src/Collector/Dora/Bounds.antt =====
-- internal/collector/dora.go: how much a run can report.
use native.Mathlib.Nat.{suc-mul}
use amazing_gitlab_exporter.Base.{
  ℕ, ◌≡◌, refl, suc, ◌+◌, ◌*◌, ◌≤◌, String, false, Option, none, some, List, [], ◌∷◌, ◌==◌,
  comparable_nat, Bool-cases, inl, inr, arith,
}
use amazing_gitlab_exporter.Base.Lists.{length, length-append}
use amazing_gitlab_exporter.Base.Errors.{Result, ok, err}
use amazing_gitlab_exporter.Gitlab.Api.{Reply, failed, refused, answered}
use amazing_gitlab_exporter.Gitlab.Tier.{DetectedFeatures, has_feature}
use amazing_gitlab_exporter.Collector.Observations.{
  LabeledGauge, Host, Endpoint, Progress, run_gated, run_sweep,
}
use amazing_gitlab_exporter.Collector.Observations.Invariants.{run_sweep-Visited}
use amazing_gitlab_exporter.Collector.Dora.{
  DoraApiResponse, DoraLists, DoraCollector, MetricType, deployments, lead_time, restore_time,
  failure_rate, metric_types, environment_tiers, no_lists, latest, add_gauge, record_latest,
  record_reply, send_request, visit_types, visit_tiers, metrics_path, metrics_query, run,
}

module _ {F : Type 0} where
  abbrev pub size : DoraLists F → ℕ
  size l =
      length l.deployment_frequency
      + length l.lead_time_for_changes
      + length l.time_to_restore
      + length l.change_failure_rate

  -- The gauges and the errors of a run so far.
  abbrev pub reported : Progress (DoraLists F) → ℕ
  reported p = size p.lists + p.errors

  add_gauge-size :
      (type : MetricType) (g : LabeledGauge F) (l : DoraLists F)
      → size (add_gauge type g l) ≡ suc (size l)
  unfolding add_gauge
  add_gauge-size deployments g l = omega (arith, length-append l.deployment_frequency (g ∷ []))
  add_gauge-size lead_time g l = omega (arith, length-append l.lead_time_for_changes (g ∷ []))
  add_gauge-size restore_time g l = omega (arith, length-append l.time_to_restore (g ∷ []))
  add_gauge-size failure_rate g l = omega (arith, length-append l.change_failure_rate (g ∷ []))

  record_latest-reported :
      (project tier : String) (type : MetricType) (value : Option F) (p : Progress (DoraLists F))
      → reported (record_latest project tier type value p) ≤ reported p + 1
  unfolding record_latest
  record_latest-reported project tier type none p = omega arith
  record_latest-reported project tier type (some value) p =
      omega (arith, add_gauge-size type _ p.lists)

  record_reply-reported :
      (project tier : String) (type : MetricType) (reply : Reply (List (DoraApiResponse F)))
      → (p : Progress (DoraLists F))
      → reported (record_reply project tier type reply p) ≤ reported p + 1
  unfolding record_reply
  record_reply-reported project tier type (answered response results) p =
      record_latest-reported project tier type (latest results) p
  record_reply-reported project tier type (failed e) p = omega arith
  record_reply-reported project tier type (refused response e) p =
      elim (Bool-cases (response.status_code == 403)) [
        | inl b ↦ rw b (omega arith)
        | inr b ↦ rw b (omega arith)
      ]

module _ {World Request Time F : Type 0} (host : Host World Time F)
    (metrics : Endpoint World Request (List (DoraApiResponse F))) where
  send_request-reported :
      (project tier : String) (type : MetricType) (made : Result Request × World)
      → (p : Progress (DoraLists F))
      → reported (send_request host metrics project tier type made p).0 ≤ reported p + 1
  unfolding send_request
  send_request-reported project tier type (err e, w) p = omega arith
  send_request-reported project tier type (ok request, w) p =
      record_reply-reported project tier type (metrics.send request w).0 p

  visit_types-reported :
      (project tier : String) (types : List MetricType) (p : Progress (DoraLists F)) (w : World)
      → reported (visit_types host metrics project tier types p w).0 ≤ reported p + length types
  unfolding visit_types
  visit_types-reported project tier [] p w = omega arith
  visit_types-reported project tier (type ∷ types) p w =
      let made = metrics.new_request (metrics_path project) (metrics_query tier type) w in
      let next = send_request host metrics project tier type made p in
      omega (
        arith,
        send_request-reported project tier type made p,
        visit_types-reported project tier types next.0 next.1,
      )

  visit_tiers-reported :
      (project : String) (tiers : List String) (p : Progress (DoraLists F)) (w : World)
      → reported (visit_tiers host metrics project tiers p w).0 ≤ reported p + 4 * length tiers
  unfolding visit_tiers
  visit_tiers-reported project [] p w = omega arith
  visit_tiers-reported project (tier ∷ tiers) p w =
      let next = visit_types host metrics project tier metric_types p w in
      omega (
        arith,
        visit_types-reported project tier metric_types p w,
        visit_tiers-reported project tiers next.0 next.1,
      )

  -- After a run that ends without an error, the gauges of the four metrics and the counted errors are at
  -- most four for each project and each environment tier, where an empty list of tiers counts as the
  -- one tier production. If the instance has no DORA metrics, there is no gauge and no error at all.
  pub run_bounded :
      (features : Option DetectedFeatures)
      → (c : DoraCollector F) → (w : World) → ((run host metrics features c w).0.0 ≡ none)
      → let o = ((run host metrics features c w).0.1).observations in
        (size o.lists + o.scrape_errors
          ≤ length c.projects * (4 * length (environment_tiers c.options.environment_tiers)))
        × (has_feature (λ f. f.has_dora) features ≡ false → size o.lists + o.scrape_errors ≡ 0)
  unfolding run run_gated
  run_bounded features c w success = elim (Bool-cases (has_feature (λ f. f.has_dora) features)) [
    | inl on ↦ rw on (bounded (rw on at success), λ off. absurd (cc off))
    | inr off ↦ rw off (omega arith, λ h. refl)
  ]
    where
      tiers : List String
      tiers = environment_tiers c.options.environment_tiers

      visit : String → Progress (DoraLists F) → World → Progress (DoraLists F) × World
      visit project = visit_tiers host metrics project tiers

      bounded :
          (run_sweep host no_lists visit c w).0.0 ≡ none
          → let o = ((run_sweep host no_lists visit c w).0.1).observations in
            size o.lists + o.scrape_errors ≤ length c.projects * (4 * length tiers)
      bounded =
          run_sweep-Visited host (λ visited p. reported p ≤ length visited * (4 * length tiers))
            no_lists visit (omega arith)
            (λ visited project p w h. grind (
              arith,
              h,
              visit_tiers-reported project tiers p w,
              length-append visited (project ∷ []),
              suc-mul,
            ))
            c w
