-- ===== src/Collector/Dora/Tiers.antt =====
-- internal/collector/dora.go: the labels of what a run collects.
use amazing_gitlab_exporter.Base.{
  ◌≡◌, refl, String, Option, none, some, List, [], ◌∷◌, ◌==◌, comparable_nat, Bool-cases, inl, inr,
}
use amazing_gitlab_exporter.Base.Lists.{All, length}
use amazing_gitlab_exporter.Base.Errors.{Result, ok, err}
use amazing_gitlab_exporter.Gitlab.Api.{Reply, failed, refused, answered}
use amazing_gitlab_exporter.Gitlab.Tier.{DetectedFeatures, has_feature}
use amazing_gitlab_exporter.Collector.{All-append}
use amazing_gitlab_exporter.Collector.Observations.{
  LabeledGauge, Host, Endpoint, Progress, gauge, HasLabels, send_gauges,
}
use amazing_gitlab_exporter.Collector.Observations.Invariants.{run_gated-keeps}
use amazing_gitlab_exporter.Collector.Observations.Labels.{
  Labelled, send_gauges-HasLabels, send_scrape-HasLabels,
}
use amazing_gitlab_exporter.Collector.Dora.{
  Metric, label_names, DoraApiResponse, DoraLists, DoraCollector, MetricType, deployments,
  lead_time, restore_time, failure_rate, metric_types, environment_tiers, no_lists, latest,
  add_gauge, record_latest, record_reply, send_request, visit_types, visit_tiers, metrics_path,
  metrics_query, collect, run,
}

module _ {F : Type 0} (Q : String → Type 0) where
  -- The gauge's labels are a project and a tier with `Q`.
  abbrev pub FromTier : LabeledGauge F → Type 0
  FromTier g = (project : String) × (tier : String) × (g.labels ≡ project ∷ tier ∷ []) × Q tier

  abbrev pub IsTiered : DoraLists F → Type 0
  IsTiered l =
      All FromTier l.deployment_frequency
      × All FromTier l.lead_time_for_changes
      × All FromTier l.time_to_restore
      × All FromTier l.change_failure_rate

  add_gauge-IsTiered :
      (type : MetricType) (g : LabeledGauge F) (l : DoraLists F)
      → FromTier g
      → IsTiered l
      → IsTiered (add_gauge type g l)
  unfolding add_gauge
  add_gauge-IsTiered deployments g l q (a, b, c, d) = (All-append FromTier _ _ a (q, tt), b, c, d)
  add_gauge-IsTiered lead_time g l q (a, b, c, d) = (a, All-append FromTier _ _ b (q, tt), c, d)
  add_gauge-IsTiered restore_time g l q (a, b, c, d) = (a, b, All-append FromTier _ _ c (q, tt), d)
  add_gauge-IsTiered failure_rate g l q (a, b, c, d) = (a, b, c, All-append FromTier _ _ d (q, tt))

  record_latest-IsTiered :
      (project tier : String) (type : MetricType) (value : Option F) (p : Progress (DoraLists F))
      → Q tier
      → IsTiered p.lists
      → IsTiered (record_latest project tier type value p).lists
  unfolding record_latest
  record_latest-IsTiered project tier type none p q h = h
  record_latest-IsTiered project tier type (some value) p q h =
      add_gauge-IsTiered type _ p.lists (project, tier, refl, q) h

  record_reply-IsTiered :
      (project tier : String) (type : MetricType) (reply : Reply (List (DoraApiResponse F)))
      → (p : Progress (DoraLists F)) → Q tier
      → IsTiered p.lists
      → IsTiered (record_reply project tier type reply p).lists
  unfolding record_reply
  record_reply-IsTiered project tier type (answered response results) p q h =
      record_latest-IsTiered project tier type (latest results) p q h
  record_reply-IsTiered project tier type (failed e) p q h = h
  record_reply-IsTiered project tier type (refused response e) p q h =
      elim (Bool-cases (response.status_code == 403)) [ inl b ↦ rw b h | inr b ↦ rw b h ]

  FromTier-Labelled : (gauges : List (LabeledGauge F)) → All FromTier gauges → Labelled 2 gauges
  FromTier-Labelled [] h = tt
  FromTier-Labelled (g ∷ gs) ((project, tier, labels, q), hs) =
      (rw labels refl, FromTier-Labelled gs hs)

  collect-HasLabels :
      (c : DoraCollector F)
      → IsTiered c.observations.lists
      → All (HasLabels label_names) (collect c)
  unfolding collect
  collect-HasLabels c (h1, h2, h3, h4) =
      let o = c.observations in
      All-append (HasLabels label_names) _ _
        (All-append (HasLabels label_names) _ _
          (All-append (HasLabels label_names) _ _
            (All-append (HasLabels label_names) _ _
              (fits Metric.deployment_frequency o.lists.deployment_frequency refl h1)
              (fits Metric.lead_time_for_changes o.lists.lead_time_for_changes refl h2))
            (fits Metric.time_to_restore o.lists.time_to_restore refl h3))
          (fits Metric.change_failure_rate o.lists.change_failure_rate refl h4))
        (send_scrape-HasLabels label_names _ _ _ o refl refl)
    where
      fits :
          (metric : Metric) (gauges : List (LabeledGauge F))
          → length (label_names metric) ≡ 2
          → All FromTier gauges
          → All (HasLabels label_names) (send_gauges metric gauge gauges)
      fits metric gauges two h =
          send_gauges-HasLabels label_names metric gauge gauges
            (rw two (FromTier-Labelled gauges h))

module _ {World Request Time F : Type 0} (host : Host World Time F)
    (metrics : Endpoint World Request (List (DoraApiResponse F))) (Q : String → Type 0) where
  send_request-IsTiered :
      (project tier : String) (type : MetricType) (made : Result Request × World)
      → (p : Progress (DoraLists F)) → Q tier
      → IsTiered Q p.lists
      → IsTiered Q (send_request host metrics project tier type made p).0.lists
  unfolding send_request
  send_request-IsTiered project tier type (err e, w) p q h = h
  send_request-IsTiered project tier type (ok request, w) p q h =
      record_reply-IsTiered Q project tier type (metrics.send request w).0 p q h

  visit_types-IsTiered :
      (project tier : String) (types : List MetricType) (p : Progress (DoraLists F)) (w : World)
      → Q tier
      → IsTiered Q p.lists
      → IsTiered Q (visit_types host metrics project tier types p w).0.lists
  unfolding visit_types
  visit_types-IsTiered project tier [] p w q h = h
  visit_types-IsTiered project tier (type ∷ types) p w q h =
      let made = metrics.new_request (metrics_path project) (metrics_query tier type) w in
      let next = send_request host metrics project tier type made p in
      visit_types-IsTiered project tier types next.0 next.1 q
        (send_request-IsTiered project tier type made p q h)

  visit_tiers-IsTiered :
      (project : String) (tiers : List String) (p : Progress (DoraLists F)) (w : World)
      → All Q tiers
      → IsTiered Q p.lists
      → IsTiered Q (visit_tiers host metrics project tiers p w).0.lists
  unfolding visit_tiers
  visit_tiers-IsTiered project [] p w qs h = h
  visit_tiers-IsTiered project (tier ∷ tiers) p w (q, qs) h =
      let next = visit_types host metrics project tier metric_types p w in
      visit_tiers-IsTiered project tiers next.0 next.1 qs
        (visit_types-IsTiered project tier metric_types p w q h)

  -- Take any predicate that the configured environment tiers have (production, if none is configured),
  -- and a collector whose gauges are labelled by a project and a tier with it, as those of a new
  -- collector are. After a run, however it ends, its gauges are so again, and every sample that
  -- `Collect` then sends has as many labels as its descriptor, so `MustNewConstMetric` does not panic.
  pub run-IsTiered :
      (features : Option DetectedFeatures)
      → (c : DoraCollector F) → (w : World) → All Q (environment_tiers c.options.environment_tiers)
      → IsTiered Q c.observations.lists
      → let after = (run host metrics features c w).0.1 in
        IsTiered Q after.observations.lists × All (HasLabels label_names) (collect after)
  unfolding run
  run-IsTiered features c w qs h =
      let tiers = environment_tiers c.options.environment_tiers in
      let kept =
        run_gated-keeps host (has_feature (λ f. f.has_dora) features) (IsTiered Q) no_lists
          (λ project. visit_tiers host metrics project tiers) (tt, tt, tt, tt)
          (λ project p w1. visit_tiers-IsTiered project tiers p w1 qs) c w h in
      (kept, collect-HasLabels Q _ kept)
