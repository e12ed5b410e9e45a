-- ===== src/Collector/ValueStream/Totals.antt =====
-- internal/collector/value_stream.go: the cycle and lead times against the stages of the same project.
use mathlib.Core.List.{append-nil, append_assoc}
use amazing_gitlab_exporter.Base.{◌≡◌, refl, sym, ◌∙◌, String, List, [], ◌∷◌, ◌++◌, comparable_nat}
use amazing_gitlab_exporter.Base.Lists.{All}
use amazing_gitlab_exporter.Collector.{float, All-append}
use amazing_gitlab_exporter.Collector.Observations.{LabeledGauge, Progress, gauge, HasLabels}
use amazing_gitlab_exporter.Collector.Observations.Labels.{
  Labelled, send_gauges-HasLabels, send_scrape-HasLabels,
}
use amazing_gitlab_exporter.Collector.ValueStream.{
  Metric, label_names, ValueStreamLists, ValueStreamCollector, record_total, collect,
}

module _ {F : Type 0} (zero_float : F) (add : F → F → F) where
  -- The sum of the durations of stages, from the left.
  abbrev pub sum_from : F → List (String × F) → F
  sum_from total [] = total
  sum_from total (stage ∷ stages) = sum_from (add total stage.1) stages

  abbrev pub stage_gauges : String → List (String × F) → List (LabeledGauge F)
  stage_gauges project [] = []
  stage_gauges project (stage ∷ stages) =
      record { labels = project ∷ stage.0 ∷ []; value = float stage.1 }
      ∷ stage_gauges project stages

  abbrev pub all_stages : List (String × List (String × F)) → List (LabeledGauge F)
  all_stages [] = []
  all_stages (group ∷ groups) = stage_gauges group.0 group.1 ++ all_stages groups

  -- One gauge for each project, with the sum of the durations of its stages.
  abbrev pub totals : List (String × List (String × F)) → List (LabeledGauge F)
  totals [] = []
  totals (group ∷ groups) =
      record { labels = group.0 ∷ []; value = float (sum_from zero_float group.1) } ∷ totals groups

  -- There are projects with their stages, such that the gauges of stages are theirs in order, and the
  -- cycle times and the lead times are the sums of each project's stages.
  abbrev pub HasTotals : ValueStreamLists F → Type 0
  HasTotals l =
      (groups : List (String × List (String × F))) × (l.stage_duration ≡ all_stages groups)
      × (l.cycle_time ≡ totals groups)
      × (l.lead_time ≡ totals groups)

  sum_from-append :
      (total : F) (xs ys : List (String × F))
      → sum_from total (xs ++ ys) ≡ sum_from (sum_from total xs) ys
  sum_from-append total [] ys = refl
  sum_from-append total (x ∷ xs) ys = sum_from-append (add total x.1) xs ys

  stage_gauges-append :
      (project : String) (xs ys : List (String × F))
      → stage_gauges project (xs ++ ys) ≡ stage_gauges project xs ++ stage_gauges project ys
  stage_gauges-append project [] ys = refl
  stage_gauges-append project (x ∷ xs) ys = rw (stage_gauges-append project xs ys) refl

  all_stages-append :
      (xs ys : List (String × List (String × F)))
      → all_stages (xs ++ ys) ≡ all_stages xs ++ all_stages ys
  all_stages-append [] ys = refl
  all_stages-append (x ∷ xs) ys =
      rw (all_stages-append xs ys)
        (sym (append_assoc (stage_gauges x.0 x.1) (all_stages xs) (all_stages ys)))

  totals-append :
      (xs ys : List (String × List (String × F))) → totals (xs ++ ys) ≡ totals xs ++ totals ys
  totals-append [] ys = refl
  totals-append (x ∷ xs) ys = rw (totals-append xs ys) refl

  -- Stages have been added, and their durations to the total.
  unfoldable pub Extends :
      String → Progress (ValueStreamLists F) × F → Progress (ValueStreamLists F) × F → Type 0
  Extends project (p, total) (q, sum) =
      (stages : List (String × F)) × (q.lists.stage_duration
        ≡ p.lists.stage_duration ++ stage_gauges project stages)
      × (q.lists.cycle_time ≡ p.lists.cycle_time)
      × (q.lists.lead_time ≡ p.lists.lead_time)
      × (sum ≡ sum_from total stages)

  pub Extends-refl :
      (project : String) (s : Progress (ValueStreamLists F) × F) → Extends project s s
  unfolding Extends
  Extends-refl project s = ([], sym (append-nil _), refl, refl, refl)

  pub Extends-trans :
      (project : String) (a b c : Progress (ValueStreamLists F) × F)
      → Extends project a b
      → Extends project b c
      → Extends project a c
  unfolding Extends
  Extends-trans project a b c (xs, e1, e2, e3, e4) (ys, f1, f2, f3, f4) = (
    xs ++ ys,
    rw (f1, e1, stage_gauges-append project xs ys)
        (append_assoc a.0.lists.stage_duration (stage_gauges project xs) (stage_gauges project ys)),
    f2 ∙ e2,
    f3 ∙ e3,
    rw (f4, e4, sum_from-append a.1 xs ys) refl,
  )

  pub record_total-HasTotals :
      (project : String) (p : Progress (ValueStreamLists F))
      → (after : Progress (ValueStreamLists F) × F) → HasTotals p.lists
      → Extends project (p, zero_float) after
      → HasTotals (record_total project after).lists
  unfolding Extends record_total
  record_total-HasTotals project p after (groups, e1, e2, e3) (stages, f1, f2, f3, f4) = (
    groups ++ (project, stages) ∷ [],
    rw (f1, e1, all_stages-append groups ((project, stages) ∷ [])) (rw append-nil refl),
    rw (f2, e2, f4, totals-append groups ((project, stages) ∷ [])) refl,
    rw (f3, e3, f4, totals-append groups ((project, stages) ∷ [])) refl,
  )

  HasTotals-Labelled :
      (l : ValueStreamLists F)
      → HasTotals l
      → Labelled 2 l.stage_duration × Labelled 1 l.cycle_time × Labelled 1 l.lead_time
  HasTotals-Labelled l (groups, e1, e2, e3) =
      (rw e1 (of_all groups), rw e2 (of_totals groups), rw e3 (of_totals groups))
    where
      of_stages :
          (project : String) (stages : List (String × F)) → Labelled 2 (stage_gauges project stages)
      of_stages project [] = tt
      of_stages project (stage ∷ stages) = (refl, of_stages project stages)

      of_all : (groups : List (String × List (String × F))) → Labelled 2 (all_stages groups)
      of_all [] = tt
      of_all (group ∷ groups) =
          All-append _ (stage_gauges group.0 group.1) (all_stages groups)
            (of_stages group.0 group.1) (of_all groups)

      of_totals : (groups : List (String × List (String × F))) → Labelled 1 (totals groups)
      of_totals [] = tt
      of_totals (group ∷ groups) = (refl, of_totals groups)

  pub collect-HasLabels :
      (c : ValueStreamCollector F)
      → HasTotals c.observations.lists
      → All (HasLabels label_names) (collect c)
  unfolding collect
  collect-HasLabels c h =
      let o = c.observations in
      let (h1, h2, h3) = HasTotals-Labelled o.lists h in
      All-append (HasLabels label_names) _ _
        (All-append (HasLabels label_names) _ _
          (All-append (HasLabels label_names) _ _
            (send_gauges-HasLabels label_names Metric.stage_duration gauge o.lists.stage_duration
              h1)
            (send_gauges-HasLabels label_names Metric.cycle_time gauge o.lists.cycle_time h2))
          (send_gauges-HasLabels label_names Metric.lead_time gauge o.lists.lead_time h3))
        (send_scrape-HasLabels label_names _ _ _ o refl refl)
