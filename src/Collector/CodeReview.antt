-- ===== src/Collector/CodeReview.antt =====
-- internal/collector/code_review.go. The maps' entries are in the order of their insertion, where Go's
-- order is not specified.
pub mod Reviews
pub mod Visits
mod Tests
use amazing_gitlab_exporter.Base.{
  ℕ, suc, ◌+◌, String, Option, none, some, List, [], ◌∷◌, ◌++◌, Comparable, comparable_string, map,
  if◌then◌else◌,
}
use amazing_gitlab_exporter.Base.Float.{Float64, whole_float}
use amazing_gitlab_exporter.Base.Int.{ℤ, pos, ltb_ℤ}
use amazing_gitlab_exporter.Base.Dict.{Dict}
use amazing_gitlab_exporter.Base.Errors.{Error, Result, ok, err}
use amazing_gitlab_exporter.Config.{PlainCollectorConfig}
use amazing_gitlab_exporter.Gitlab.Tier.{DetectedFeatures, has_feature}
use amazing_gitlab_exporter.Collector.{whole}
use amazing_gitlab_exporter.Collector.Histograms.{LabeledValue, emit_histograms}
use amazing_gitlab_exporter.Collector.Listing.{MergeRequest, Lister, latest_of, Floats, successor}
use amazing_gitlab_exporter.Collector.Tally.{increment, send_counts}
use amazing_gitlab_exporter.Collector.Observations.{
  LabeledGauge, Observer, Host, Progress, run_gated, gauge, counter, Sent, send_gauges, send_scrape,
  send_constants, send_histograms,
}

pub data Metric : Type 0 where
  turnaround approval_count pending_count requested_count scrape_duration scrape_errors : Metric

-- The label names of the descriptors of `NewCodeReviewCollector`.
abbrev pub label_names : Metric → List String
label_names turnaround = "project" ∷ "reviewer" ∷ []
label_names approval_count = "project" ∷ "reviewer" ∷ []
label_names pending_count = "project" ∷ []
label_names requested_count = "project" ∷ "reviewer" ∷ []
label_names scrape_duration = "collector_type" ∷ []
label_names scrape_errors = "collector_type" ∷ []

pub record CodeReviewLists (F : Type 0) : Type 0 where
  pub turnaround : List (LabeledValue F)
  pub approval_count : List (LabeledGauge F)
  pub pending_count : List (LabeledGauge F)
  pub requested_count : List (LabeledGauge F)

abbrev pub no_lists : {F : Type 0} → CodeReviewLists F
no_lists = record { turnaround = []; approval_count = []; pending_count = []; requested_count = [] }

abbrev pub CodeReviewCollector : Type 0 → Type 0
CodeReviewCollector F = Observer PlainCollectorConfig (CodeReviewLists F) F

abbrev pub default_review_buckets : List Float64
default_review_buckets =
    map whole_float
      (300 ∷ 600 ∷ 1800 ∷ 3600 ∷ 7200 ∷ 14400 ∷ 28800 ∷ 43200 ∷ 86400 ∷ 172800 ∷ 604800 ∷ [])

-- The variables of `Run` for one project, and the list of turnarounds.
pub record Review (F : Type 0) : Type 0 where
  pub pending_reviews : ℕ
  pub reviewer_requested : Dict String ℕ
  pub reviewer_approvals : Dict String ℕ
  pub turnaround : List (LabeledValue F)

-- `for _, reviewer := range mr.Reviewers { reviewerRequested[reviewer.Username]++ }`
pub request_reviews : Dict String ℕ → List String → Dict String ℕ
request_reviews requested [] = requested
request_reviews requested (reviewer ∷ reviewers) =
    request_reviews (increment requested reviewer) reviewers

abbrev pub any_reviewer : List String → ℕ
any_reviewer [] = 0
any_reviewer (reviewer ∷ reviewers) = 1

abbrev pub approve : Dict String ℕ → Option String → Dict String ℕ
approve approvals none = approvals
approve approvals (some username) = increment approvals username

pub collect :
    {F : Type 0} ⦃e : Comparable F⦄ → Floats F → CodeReviewCollector F → List (Sent Metric F)
collect floats c =
    let o = c.observations in
    let buckets = map floats.from_float default_review_buckets in
    send_histograms Metric.turnaround (
      emit_histograms floats.zero_float floats.add floats.le floats.accepts o.lists.turnaround
        buckets)
    ++ send_constants (
        send_gauges Metric.approval_count counter o.lists.approval_count
        ++ send_gauges Metric.pending_count gauge o.lists.pending_count
        ++ send_gauges Metric.requested_count counter o.lists.requested_count
        ++ send_scrape Metric.scrape_duration Metric.scrape_errors "code_review" o)

module _ {World Time F : Type 0} (host : Host World Time F) (floats : Floats F)
    (list_merge_requests : Lister World Time) where
  -- The estimate `totalDur / float64(notes + 1)`, for the first reviewer.
  pub estimate :
      String → List String → Time → Option Time → ℤ → List (LabeledValue F) → List (LabeledValue F)
  estimate project [] end start notes values = values
  estimate project (reviewer ∷ reviewers) end none notes values = values
  estimate project (reviewer ∷ reviewers) end (some start) notes values =
      if ltb_ℤ (pos 0) notes
      then values
        ++ record {
          labels = project ∷ reviewer ∷ [];
          value =
              floats.divide (host.seconds_between start end) (floats.from_int (successor notes));
        }
          ∷ []
      else values

  abbrev pub estimate_merged :
      String
      → List String
      → Option Time
      → Option Time
      → ℤ
      → List (LabeledValue F)
      → List (LabeledValue F)
  estimate_merged project reviewers none start notes values = values
  estimate_merged project reviewers (some end) start notes values =
      estimate project reviewers end start notes values

  -- The loop over the open merge requests.
  pub review_opened : String → World → List (MergeRequest Time) → Review F → Review F
  review_opened project w [] r = r
  review_opened project w (mr ∷ mrs) r = review_opened project w mrs record {
    pending_reviews = r.pending_reviews + any_reviewer mr.reviewers;
    reviewer_requested = request_reviews r.reviewer_requested mr.reviewers;
    reviewer_approvals = r.reviewer_approvals;
    turnaround =
        estimate project mr.reviewers (host.now w) mr.created_at mr.user_notes_count r.turnaround;
  }

  -- The loop over the merged ones.
  pub review_merged : String → List (MergeRequest Time) → Review F → Review F
  review_merged project [] r = r
  review_merged project (mr ∷ mrs) r = review_merged project mrs record {
    pending_reviews = r.pending_reviews;
    reviewer_requested = request_reviews r.reviewer_requested mr.reviewers;
    reviewer_approvals = approve r.reviewer_approvals mr.merged_by;
    turnaround =
        estimate_merged project mr.reviewers mr.merged_at mr.created_at mr.user_notes_count
          r.turnaround;
  }

  -- What is appended once both lists have been read.
  pub report : String → ℕ → Review F → CodeReviewLists F → Progress (CodeReviewLists F)
  report project errors r l = record {
    lists = record {
      turnaround = r.turnaround;
      approval_count = l.approval_count ++ send_counts project r.reviewer_approvals;
      pending_count =
          l.pending_count
          ++ record { labels = project ∷ []; value = whole (pos r.pending_reviews) } ∷ [];
      requested_count = l.requested_count ++ send_counts project r.reviewer_requested;
    };
    errors = errors;
  }

  -- Without the merged ones the open ones are still reported.
  pub finish_review :
      String
      → Review F
      → Result (List (MergeRequest Time)) × World
      → Progress (CodeReviewLists F)
      → Progress (CodeReviewLists F) × World
  finish_review project r (err e, w) p = (report project (suc p.errors) r p.lists, w)
  finish_review project r (ok merged, w) p =
      (report project p.errors (review_merged project merged r) p.lists, w)

  pub start_review :
      String
      → Result (List (MergeRequest Time)) × World
      → Progress (CodeReviewLists F)
      → Progress (CodeReviewLists F) × World
  start_review project (err e, w) p = (record p { errors = suc p.errors }, w)
  start_review project (ok opened, w) p =
      let r = review_opened project w opened record {
        pending_reviews = 0;
        reviewer_requested = [];
        reviewer_approvals = [];
        turnaround = p.lists.turnaround;
      } in
      finish_review project r (list_merge_requests project (latest_of "merged") w) p

  pub visit : String → Progress (CodeReviewLists F) → World → Progress (CodeReviewLists F) × World
  visit project p w = start_review project (list_merge_requests project (latest_of "opened") w) p

  -- `Run`; the features are those of the client.
  pub run :
      Option DetectedFeatures
      → CodeReviewCollector F
      → World
      → (Option Error × CodeReviewCollector F) × World
  run features c w =
      run_gated host (has_feature (λ f. f.has_code_review) features) no_lists visit c w
