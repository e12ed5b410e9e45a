-- ===== src/Collector/CodeReview/Reviews.antt =====
-- internal/collector/code_review.go: the counts of one project against its merge requests.
use amazing_gitlab_exporter.Base.{
  ℕ, ◌≡◌, refl, ◌+◌, String, Option, none, some, List, [], ◌∷◌, ◌++◌, comparable_string, arith,
}
use amazing_gitlab_exporter.Base.Dict.{Dict, Unique}
use amazing_gitlab_exporter.Collector.Listing.{MergeRequest, Lister, Floats}
use amazing_gitlab_exporter.Collector.Tally.{
  increment, increment-Unique, count_of, occurrences, count_of-increment, occurrences-append,
}
use amazing_gitlab_exporter.Collector.Observations.{Host}
use amazing_gitlab_exporter.Collector.CodeReview.{
  Review, request_reviews, any_reviewer, approve, review_opened, review_merged,
}

-- Every reviewer of every merge request.
abbrev pub all_reviewers : {Time : Type 0} → List (MergeRequest Time) → List String
all_reviewers [] = []
all_reviewers (mr ∷ mrs) = mr.reviewers ++ all_reviewers mrs

abbrev pub merger : Option String → List String
merger none = []
merger (some username) = username ∷ []

-- Everybody who merged a merge request.
abbrev pub all_mergers : {Time : Type 0} → List (MergeRequest Time) → List String
all_mergers [] = []
all_mergers (mr ∷ mrs) = merger mr.merged_by ++ all_mergers mrs

-- How many merge requests have a reviewer.
abbrev pub awaiting : {Time : Type 0} → List (MergeRequest Time) → ℕ
awaiting [] = 0
awaiting (mr ∷ mrs) = any_reviewer mr.reviewers + awaiting mrs

request_reviews-count_of :
    (counts : Dict String ℕ) (reviewers : List String) (key : String)
    → count_of (request_reviews counts reviewers) key
      ≡ count_of counts key + occurrences reviewers key
unfolding request_reviews
request_reviews-count_of counts [] key = omega arith
request_reviews-count_of counts (reviewer ∷ reviewers) key = omega (
  arith,
  request_reviews-count_of (increment counts reviewer) reviewers key,
  count_of-increment counts reviewer key,
)

approve-count_of :
    (counts : Dict String ℕ) (by : Option String) (key : String)
    → count_of (approve counts by) key ≡ count_of counts key + occurrences (merger by) key
approve-count_of counts none key = omega arith
approve-count_of counts (some username) key = omega (arith, count_of-increment counts username key)

request_reviews-Unique :
    (counts : Dict String ℕ) (reviewers : List String)
    → Unique counts
    → Unique (request_reviews counts reviewers)
unfolding request_reviews
request_reviews-Unique counts [] h = h
request_reviews-Unique counts (reviewer ∷ reviewers) h =
    request_reviews-Unique (increment counts reviewer) reviewers
      (increment-Unique counts reviewer h)

approve-Unique :
    (counts : Dict String ℕ) (by : Option String) → Unique counts → Unique (approve counts by)
approve-Unique counts none h = h
approve-Unique counts (some username) h = increment-Unique counts username h

module _ {World Time F : Type 0} (host : Host World Time F) (floats : Floats F)
    (list_merge_requests : Lister World Time) where
  abbrev next_opened : String → World → MergeRequest Time → Review F → Review F
  next_opened project w mr r = review_opened host floats list_merge_requests project w (mr ∷ []) r

  pub review_opened-counts :
      (project : String) (w : World) (mrs : List (MergeRequest Time)) (r : Review F)
      → let s = review_opened host floats list_merge_requests project w mrs r in
        (s.pending_reviews ≡ r.pending_reviews + awaiting mrs)
        × (s.reviewer_approvals ≡ r.reviewer_approvals)
        × ((key : String)
            → count_of s.reviewer_requested key
              ≡ count_of r.reviewer_requested key + occurrences (all_reviewers mrs) key)
  unfolding review_opened
  review_opened-counts project w [] r = (omega arith, refl, λ key. omega arith)
  review_opened-counts project w (mr ∷ mrs) r =
      let (h1, h2, h3) = review_opened-counts project w mrs (next_opened project w mr r) in
      (
        omega (arith, h1),
        h2,
        λ key. omega (
          arith,
          h3 key,
          request_reviews-count_of r.reviewer_requested mr.reviewers key,
          occurrences-append mr.reviewers (all_reviewers mrs) key,
        ),
      )

  pub review_merged-counts :
      (project : String) (mrs : List (MergeRequest Time)) (r : Review F)
      → let s = review_merged host floats list_merge_requests project mrs r in
        (s.pending_reviews ≡ r.pending_reviews)
        × ((key : String)
            → count_of s.reviewer_requested key
              ≡ count_of r.reviewer_requested key + occurrences (all_reviewers mrs) key)
        × ((key : String)
            → count_of s.reviewer_approvals key
              ≡ count_of r.reviewer_approvals key + occurrences (all_mergers mrs) key)
  unfolding review_merged
  review_merged-counts project [] r = (refl, λ key. omega arith, λ key. omega arith)
  review_merged-counts project (mr ∷ mrs) r =
      let (h1, h2, h3) =
        review_merged-counts project mrs
          (review_merged host floats list_merge_requests project (mr ∷ []) r) in
      (
        h1,
        λ key. omega (
          arith,
          h2 key,
          request_reviews-count_of r.reviewer_requested mr.reviewers key,
          occurrences-append mr.reviewers (all_reviewers mrs) key,
        ),
        λ key. omega (
          arith,
          h3 key,
          approve-count_of r.reviewer_approvals mr.merged_by key,
          occurrences-append (merger mr.merged_by) (all_mergers mrs) key,
        ),
      )

  -- The maps of a review have no key twice.
  abbrev pub HasMaps : Review F → Type 0
  HasMaps r = Unique r.reviewer_requested × Unique r.reviewer_approvals

  pub review_opened-HasMaps :
      (project : String) (w : World) (mrs : List (MergeRequest Time)) (r : Review F)
      → HasMaps r
      → HasMaps (review_opened host floats list_merge_requests project w mrs r)
  unfolding review_opened
  review_opened-HasMaps project w [] r h = h
  review_opened-HasMaps project w (mr ∷ mrs) r (h, k) =
      review_opened-HasMaps project w mrs _
        (request_reviews-Unique r.reviewer_requested mr.reviewers h, k)

  pub review_merged-HasMaps :
      (project : String) (mrs : List (MergeRequest Time)) (r : Review F)
      → HasMaps r
      → HasMaps (review_merged host floats list_merge_requests project mrs r)
  unfolding review_merged
  review_merged-HasMaps project [] r h = h
  review_merged-HasMaps project (mr ∷ mrs) r (h, k) = review_merged-HasMaps project mrs _ (
    request_reviews-Unique r.reviewer_requested mr.reviewers h,
    approve-Unique r.reviewer_approvals mr.merged_by k,
  )
