-- ===== src/Collector/CodeReview/Visits.antt =====
-- internal/collector/code_review.go: what a visit of a project reports.
use amazing_gitlab_exporter.Base.{ℕ, ◌≡◌, ◌+◌, String, List, [], ◌∷◌, ◌++◌, comparable_string}
use amazing_gitlab_exporter.Base.Int.{pos}
use amazing_gitlab_exporter.Base.Errors.{Result, ok, err}
use amazing_gitlab_exporter.Collector.{whole}
use amazing_gitlab_exporter.Collector.Listing.{MergeRequest, Lister, Floats}
use amazing_gitlab_exporter.Collector.Tally.{Counts}
use amazing_gitlab_exporter.Collector.Observations.{Host, Progress}
use amazing_gitlab_exporter.Collector.CodeReview.Reviews.{all_reviewers, all_mergers, awaiting}
use amazing_gitlab_exporter.Collector.CodeReview.{CodeReviewLists, Review}

-- What a listing gives, where a failure gives nothing.
abbrev pub listed : {A : Type 0} → Result (List A) → List A
listed (ok xs) = xs
listed (err e) = []

abbrev pub failures : {A : Type 0} → Result A → ℕ
failures (ok x) = 0
failures (err e) = 1

module _ {World Time F : Type 0} (host : Host World Time F) (floats : Floats F)
    (list_merge_requests : Lister World Time) where
  -- What a project is reported with, for its open merge requests and the reply to the second listing:
  -- the gauges of pending reviews, of review requests and of merges, and the errors.
  abbrev pub Reported :
      String
      → List (MergeRequest Time)
      → Result (List (MergeRequest Time))
      → Progress (CodeReviewLists F)
      → Progress (CodeReviewLists F)
      → Type 0
  Reported project opened merged before after =
      (after.errors ≡ before.errors + failures merged)
      × (after.lists.pending_count
          ≡ before.lists.pending_count
            ++ record { labels = project ∷ []; value = whole (pos (awaiting opened)) } ∷ [])
      × Counts project (all_reviewers opened ++ all_reviewers (listed merged))
          before.lists.requested_count after.lists.requested_count
      × Counts project (all_mergers (listed merged)) before.lists.approval_count
          after.lists.approval_count

  abbrev blank : Progress (CodeReviewLists F) → Review F
  blank p = record {
    pending_reviews = 0;
    reviewer_requested = [];
    reviewer_approvals = [];
    turnaround = p.lists.turnaround;
  }
