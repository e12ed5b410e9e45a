-- ===== src/Collector/MergeRequests/Scan/Counting.antt =====
-- internal/collector/merge_requests.go `Run`: the two maps against the merge requests that were scanned.
use amazing_gitlab_exporter.Base.{
  ℕ, ◌≡◌, refl, ◌∙◌, suc, ◌+◌, String, Bool, List, [], ◌∷◌, ◌==◌, comparable_string, Bool-cases,
  inl, inr, arith, if◌then◌else◌,
}
use amazing_gitlab_exporter.Base.Lists.{length, length-append}
use amazing_gitlab_exporter.Base.Int.{pos, ltb_ℤ}
use amazing_gitlab_exporter.Base.Dict.{Dict, get, get-put}
use amazing_gitlab_exporter.Collector.Histograms.{or_empty}
use amazing_gitlab_exporter.Collector.Listing.{MergeRequest, Lister, Floats}
use amazing_gitlab_exporter.Collector.Tally.{increment, count_of, occurrences, count_of-increment}
use amazing_gitlab_exporter.Collector.Observations.{Host}
use amazing_gitlab_exporter.Collector.MergeRequests.{MergeRequestLists}
use amazing_gitlab_exporter.Collector.MergeRequests.Scan.{
  Scan, count_state, add_changes, add_durations, add_reviews, add_notes, scan_one, scan,
}

-- What `statusCounts` has for a branch and a state.
abbrev pub count_in : Dict String (Dict String ℕ) → String → String → ℕ
count_in counts branch state = count_of (or_empty (get counts branch)) state

abbrev pub one_if : Bool → ℕ
one_if b = if b then 1 else 0

-- The number of merge requests with this target branch and this state.
abbrev pub in_state : {Time : Type 0} → List (MergeRequest Time) → String → String → ℕ
in_state [] branch state = 0
in_state (mr ∷ mrs) branch state =
    (if mr.target_branch == branch then one_if (mr.state == state) else 0)
    + in_state mrs branch state

-- The target branches of the merged ones.
abbrev pub merged_branches : {Time : Type 0} → List (MergeRequest Time) → List String
merged_branches [] = []
merged_branches (mr ∷ mrs) =
    let rest = merged_branches mrs in if mr.state == "merged" then mr.target_branch ∷ rest else rest

-- Whether this one was merged into the branch.
abbrev merged_into : {Time : Type 0} → MergeRequest Time → String → ℕ
merged_into mr branch =
    if mr.state == "merged"
    then (if comparable_string.same mr.target_branch branch then 1 else 0)
    else 0

occurrences-merged_branches :
    {Time : Type 0} (mr : MergeRequest Time) (mrs : List (MergeRequest Time)) (branch : String)
    → occurrences (merged_branches (mr ∷ mrs)) branch
      ≡ merged_into mr branch + occurrences (merged_branches mrs) branch
occurrences-merged_branches mr mrs branch = elim (Bool-cases (mr.state == "merged")) [
  | inl m ↦ rw m refl
  | inr m ↦ rw m (omega arith)
]

count_in-count_state :
    (counts : Dict String (Dict String ℕ)) (b s branch state : String)
    → count_in (count_state counts b s) branch state
      ≡ count_in counts branch state + (if b == branch then one_if (s == state) else 0)
unfolding count_state
count_in-count_state counts b s branch state = elim (Bool-cases (b == branch)) [
  | inl equal ↦
      rw
        (
          get-put counts b branch (increment (or_empty (get counts b)) s),
          equal,
          (comparable_string.same_iff b branch).0 equal,
        )
        (count_of-increment (or_empty (get counts branch)) s state)
  | inr other ↦
      rw (get-put counts b branch (increment (or_empty (get counts b)) s), other) (omega arith)
]

module _ {World Time F : Type 0} (host : Host World Time F) (floats : Floats F)
    (list_merge_requests : Lister World Time) where
  -- The gauges are left alone, and so are the notes.
  abbrev Untouched : MergeRequestLists F → MergeRequestLists F → Type 0
  Untouched l after =
      (after.status ≡ l.status)
      × (after.throughput ≡ l.throughput)
      × (after.notes_count ≡ l.notes_count)

  add_changes-Untouched :
      (labels : List String) (mr : MergeRequest Time) (l : MergeRequestLists F)
      → Untouched l (add_changes host floats list_merge_requests labels mr l)
  unfolding add_changes
  add_changes-Untouched labels mr l = elim (Bool-cases (mr.changes_count == "")) [
    | inl h ↦ rw h (refl, refl, refl)
    | inr h ↦ rw h (refl, refl, refl)
  ]

  add_durations-Untouched :
      (w : World) (labels : List String) (mr : MergeRequest Time) (l : MergeRequestLists F)
      → Untouched l (add_durations host floats list_merge_requests w labels mr l)
  unfolding add_durations
  add_durations-Untouched w labels mr l = elim (Bool-cases (mr.state == "merged")) [
    | inl m ↦ rw m (refl, refl, refl)
    | inr m ↦ elim (Bool-cases (mr.state == "closed")) [
      | inl c ↦ rw (m, c) (refl, refl, refl)
      | inr c ↦ elim (Bool-cases (mr.state == "opened")) [
        | inl o ↦ rw (m, c, o) (refl, refl, refl)
        | inr o ↦ rw (m, c, o) (refl, refl, refl)
      ]
    ]
  ]

  add_reviews-Untouched :
      (w : World) (labels : List String) (mr : MergeRequest Time) (l : MergeRequestLists F)
      → Untouched l (add_reviews host floats list_merge_requests w labels mr l)
  unfolding add_reviews
  add_reviews-Untouched w labels mr l = elim (Bool-cases (ltb_ℤ (pos 0) mr.user_notes_count)) [
    | inl h ↦ rw h (refl, refl, refl)
    | inr h ↦ rw h (refl, refl, refl)
  ]

  scan_one-lists :
      (project : String) (w : World) (mr : MergeRequest Time) (s : Scan F)
      → let t = scan_one host floats list_merge_requests project w mr s in
        (t.lists.status ≡ s.lists.status)
        × (t.lists.throughput ≡ s.lists.throughput)
        × (length t.lists.notes_count ≡ suc (length s.lists.notes_count))
  unfolding scan_one add_notes
  scan_one-lists project w mr s =
      let labels = project ∷ mr.target_branch ∷ [] in
      let l1 = add_notes host floats list_merge_requests labels mr s.lists in
      let l2 = add_changes host floats list_merge_requests labels mr l1 in
      let l3 = add_durations host floats list_merge_requests w labels mr l2 in
      let (a1, a2, a3) = add_changes-Untouched labels mr l1 in
      let (b1, b2, b3) = add_durations-Untouched w labels mr l2 in
      let (c1, c2, c3) = add_reviews-Untouched w labels mr l3 in
      (
        c1 ∙ b1 ∙ a1,
        c2 ∙ b2 ∙ a2,
        rw (c3, b3, a3) (omega (arith, length-append s.lists.notes_count (_ ∷ []))),
      )

  scan_one-throughput :
      (project : String) (w : World) (mr : MergeRequest Time) (s : Scan F) (branch : String)
      → count_of
          (scan_one host floats list_merge_requests project w mr s).throughput_by_branch
          branch
        ≡ count_of s.throughput_by_branch branch + merged_into mr branch
  unfolding scan_one
  scan_one-throughput project w mr s branch = elim (Bool-cases (mr.state == "merged")) [
    | inl m ↦ rw m (count_of-increment s.throughput_by_branch mr.target_branch branch)
    | inr m ↦ rw m (omega arith)
  ]

  pub scan-counts :
      (project : String) (w : World) (mrs : List (MergeRequest Time)) (s : Scan F)
      → let t = scan host floats list_merge_requests project w mrs s in
        (t.lists.status ≡ s.lists.status)
        × (t.lists.throughput ≡ s.lists.throughput)
        × (length t.lists.notes_count ≡ length s.lists.notes_count + length mrs)
        × ((branch state : String)
            → count_in t.status_counts branch state
              ≡ count_in s.status_counts branch state + in_state mrs branch state)
        × ((branch : String)
            → count_of t.throughput_by_branch branch
              ≡ count_of s.throughput_by_branch branch + occurrences (merged_branches mrs) branch)
  unfolding scan scan_one
  scan-counts project w [] s =
      (refl, refl, omega arith, λ branch state. omega arith, λ branch. omega arith)
  scan-counts project w (mr ∷ mrs) s =
      let s1 = scan_one host floats list_merge_requests project w mr s in
      let (h1, h2, h3, h4, h5) = scan-counts project w mrs s1 in
      let (k1, k2, k3) = scan_one-lists project w mr s in
      (
        h1 ∙ k1,
        h2 ∙ k2,
        omega (arith, h3, k3),
        λ branch state. omega (
          arith,
          h4 branch state,
          count_in-count_state s.status_counts mr.target_branch mr.state branch state,
        ),
        λ branch. omega (
          arith,
          h5 branch,
          scan_one-throughput project w mr s branch,
          occurrences-merged_branches mr mrs branch,
        ),
      )
