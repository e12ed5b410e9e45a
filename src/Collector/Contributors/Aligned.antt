-- ===== src/Collector/Contributors/Aligned.antt =====
-- internal/collector/contributors.go: the three lists of a run stand side by side, and every sample fits
-- its descriptor.
use amazing_gitlab_exporter.Base.{
  ◌≡◌, refl, String, List, [], ◌∷◌, ◌++◌, Bool-cases, inl, inr, ◌==◌, comparable_nat,
}
use amazing_gitlab_exporter.Base.Lists.{All}
use amazing_gitlab_exporter.Base.Errors.{Result, ok, err}
use amazing_gitlab_exporter.Gitlab.Api.{Reply, failed, refused, answered}
use amazing_gitlab_exporter.Collector.{All-append}
use amazing_gitlab_exporter.Collector.Observations.{
  LabeledGauge, Host, Endpoint, Progress, gauge, HasLabels,
}
use amazing_gitlab_exporter.Collector.Observations.Invariants.{run_sweep-keeps}
use amazing_gitlab_exporter.Collector.Observations.Labels.{
  Labelled, send_gauges-HasLabels, send_scrape-HasLabels,
}
use amazing_gitlab_exporter.Collector.Contributors.{
  Metric, label_names, ContributorResponse, ContributorsLists, ContributorsCollector, no_lists,
  record_contributors, record_reply, collect, send_request, visit, run,
}

module _ {F : Type 0} where
  abbrev pub labels_of : List (LabeledGauge F) → List (List String)
  labels_of [] = []
  labels_of (g ∷ gs) = g.labels ∷ labels_of gs

  labels_of-append :
      (xs ys : List (LabeledGauge F)) → labels_of (xs ++ ys) ≡ labels_of xs ++ labels_of ys
  labels_of-append [] ys = refl
  labels_of-append (x ∷ xs) ys = rw (labels_of-append xs ys) refl

  -- The three lists are about the same projects and authors, in the same order, with two labels each.
  abbrev pub IsAligned : ContributorsLists F → Type 0
  IsAligned l =
      Labelled 2 l.commits_count
      × Labelled 2 l.additions
      × Labelled 2 l.deletions
      × (labels_of l.additions ≡ labels_of l.commits_count)
      × (labels_of l.deletions ≡ labels_of l.commits_count)

  record_contributors-IsAligned :
      (project : String) (rs : List ContributorResponse) (l : ContributorsLists F)
      → IsAligned l
      → IsAligned (record_contributors project rs l)
  unfolding record_contributors
  record_contributors-IsAligned project [] l h = h
  record_contributors-IsAligned project (r ∷ rs) l (c, a, d, same_a, same_d) =
      record_contributors-IsAligned project rs _ (
        All-append _ l.commits_count _ c (refl, tt),
        All-append _ l.additions _ a (refl, tt),
        All-append _ l.deletions _ d (refl, tt),
        rw (labels_of-append, labels_of-append, same_a) refl,
        rw (labels_of-append, labels_of-append, same_d) refl,
      )

  record_reply-IsAligned :
      (project : String) (reply : Reply (List ContributorResponse))
      → (p : Progress (ContributorsLists F)) → IsAligned p.lists
      → IsAligned (record_reply project reply p).lists
  unfolding record_reply
  record_reply-IsAligned project (answered response rs) p h =
      record_contributors-IsAligned project rs p.lists h
  record_reply-IsAligned project (failed e) p h = h
  record_reply-IsAligned project (refused response e) p h =
      elim (Bool-cases (response.status_code == 404)) [ inl b ↦ rw b h | inr b ↦ rw b h ]

  collect-HasLabels :
      (c : ContributorsCollector F)
      → IsAligned c.observations.lists
      → All (HasLabels label_names) (collect c)
  unfolding collect
  collect-HasLabels c (h1, h2, h3, same_a, same_d) =
      let o = c.observations in
      All-append (HasLabels label_names) _ _
        (All-append (HasLabels label_names) _ _
          (All-append (HasLabels label_names) _ _
            (send_gauges-HasLabels label_names Metric.commits_count gauge o.lists.commits_count h1)
            (send_gauges-HasLabels label_names Metric.additions gauge o.lists.additions h2))
          (send_gauges-HasLabels label_names Metric.deletions gauge o.lists.deletions h3))
        (send_scrape-HasLabels label_names _ _ _ o refl refl)

module _ {World Request Time F : Type 0} (host : Host World Time F)
    (contributors : Endpoint World Request (List ContributorResponse)) where
  visit-IsAligned :
      (project : String) (p : Progress (ContributorsLists F)) (w : World)
      → IsAligned p.lists
      → IsAligned ((visit host contributors project p w).0).lists
  unfolding visit send_request
  visit-IsAligned project p w h = go (contributors.new_request _ [] w)
    where
      go :
          (made : Result Request × World)
          → IsAligned ((send_request host contributors project made p).0).lists
      go (err e, w1) = h
      go (ok request, w1) = record_reply-IsAligned project (contributors.send request w1).0 p h

  -- Take a collector whose lists of commits, additions and deletions are about the same projects and
  -- authors in the same order, as those of a new collector are. After a run, however it ends, they are
  -- so again, and every sample that `Collect` then sends has as many labels as its descriptor, so
  -- `MustNewConstMetric` does not panic.
  pub run-IsAligned :
      (c : ContributorsCollector F) (w : World)
      → IsAligned c.observations.lists
      → let after = (run host contributors c w).0.1 in
        IsAligned after.observations.lists × All (HasLabels label_names) (collect after)
  unfolding run
  run-IsAligned c w h =
      let kept =
        run_sweep-keeps host IsAligned no_lists (visit host contributors) (tt, tt, tt, refl, refl)
          visit-IsAligned c w h in
      (kept, collect-HasLabels _ kept)
