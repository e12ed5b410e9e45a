-- ===== src/Collector/MergeRequests/Scan.antt =====
-- internal/collector/merge_requests.go `Run`: what one project's merge requests add to the lists.
pub mod Counting
pub mod Maps
pub mod Visits
use amazing_gitlab_exporter.Base.{
  ℕ, suc, ◌-◌, String, Bool, ◌==◌, Option, none, some, List, [], ◌∷◌, ◌++◌, comparable_string,
  if◌then◌else◌,
}
use amazing_gitlab_exporter.Base.Int.{pos, ltb_ℤ}
use amazing_gitlab_exporter.Base.Dict.{Dict, get, put}
use amazing_gitlab_exporter.Base.Strconv.{codes, is_digit}
use amazing_gitlab_exporter.Base.Errors.{Error, Result, ok, err}
use amazing_gitlab_exporter.Collector.{whole}
use amazing_gitlab_exporter.Collector.Histograms.{LabeledValue, or_empty}
use amazing_gitlab_exporter.Collector.Listing.{
  MergeRequest, Lister, latest_of, Floats, successor, half,
}
use amazing_gitlab_exporter.Collector.Tally.{increment, send_counts}
use amazing_gitlab_exporter.Collector.Observations.{LabeledGauge, Host, Progress, run_sweep}
use amazing_gitlab_exporter.Collector.MergeRequests.{
  MergeRequestLists, MergeRequestsCollector, no_lists,
}

-- The lists and the two maps of a project.
pub record Scan (F : Type 0) : Type 0 where
  pub lists : MergeRequestLists F
  pub throughput_by_branch : Dict String ℕ
  pub status_counts : Dict String (Dict String ℕ)

abbrev pub fresh_scan : {F : Type 0} → MergeRequestLists F → Scan F
fresh_scan lists = record { lists = lists; throughput_by_branch = []; status_counts = [] }

-- `statusCounts[targetBranch][mr.State]++`, where a missing branch is entered first.
pub count_state : Dict String (Dict String ℕ) → String → String → Dict String (Dict String ℕ)
count_state counts branch state = put counts branch (increment (or_empty (get counts branch)) state)

-- The status gauges of a branch, and those of all branches.
pub send_states : {F : Type 0} → String → String → Dict String ℕ → List (LabeledGauge F)
send_states project branch [] = []
send_states project branch ((state, n) ∷ states) =
    record { labels = project ∷ branch ∷ state ∷ []; value = whole (pos n) }
    ∷ send_states project branch states

pub send_branches : {F : Type 0} → String → Dict String (Dict String ℕ) → List (LabeledGauge F)
send_branches project [] = []
send_branches project ((branch, states) ∷ branches) =
    send_states project branch states ++ send_branches project branches

module _ {World Time F : Type 0} (host : Host World Time F) (floats : Floats F)
    (list_merge_requests : Lister World Time) where
  -- The digits of the text, whatever stands between them.
  pub parse_changes : F → List ℕ → F
  parse_changes changes [] = changes
  parse_changes changes (c ∷ cs) =
      parse_changes
        (if is_digit c
          then floats.add (floats.multiply changes (floats.from_int (pos 10)))
              (floats.from_int (pos (c - b'0')))
          else changes)
        cs

  abbrev append_value : List String → F → List (LabeledValue F) → List (LabeledValue F)
  append_value labels value values = values ++ record { labels = labels; value = value } ∷ []

  -- A value from a start and an end, if both are known.
  abbrev append_span :
      List String → Option Time → Option Time → List (LabeledValue F) → List (LabeledValue F)
  append_span labels none end values = values
  append_span labels (some start) none values = values
  append_span labels (some start) (some end) values =
      append_value labels (host.seconds_between start end) values

  pub add_changes : List String → MergeRequest Time → MergeRequestLists F → MergeRequestLists F
  add_changes labels mr l = if mr.changes_count == "" then l else record l {
    changes_count =
        append_value labels (parse_changes floats.zero_float (codes mr.changes_count))
          l.changes_count;
  }

  -- The `switch` on the state.
  pub add_durations :
      World → List String → MergeRequest Time → MergeRequestLists F → MergeRequestLists F
  add_durations w labels mr l =
      if mr.state == "merged"
      then record l {
        time_to_merge = append_span labels mr.created_at mr.merged_at l.time_to_merge;
        open_duration = append_span labels mr.created_at mr.merged_at l.open_duration;
      }
      else if mr.state == "closed"
      then record l {
        open_duration = append_span labels mr.created_at mr.closed_at l.open_duration;
      }
      else if mr.state == "opened"
      then record l {
        open_duration = append_span labels mr.created_at (some (host.now w)) l.open_duration;
      }
      else l

  -- When the review ended: at the merge, at the closing, or not yet.
  abbrev pub end_time : World → MergeRequest Time → Time
  end_time w mr = elim mr.merged_at [
    | some merged ↦ merged
    | none ↦ elim mr.closed_at [ some closed ↦ closed | none ↦ host.now w ]
  ]

  abbrev append_first_review :
      World → List String → MergeRequest Time → List (LabeledValue F) → List (LabeledValue F)
  append_first_review w labels mr values = elim mr.created_at [
    | none ↦ values
    | some created ↦
        append_value labels
          (floats.divide (host.seconds_between created (end_time w mr))
            (floats.from_int (successor mr.user_notes_count)))
          values
  ]

  -- The estimates from the number of notes.
  pub add_reviews :
      World → List String → MergeRequest Time → MergeRequestLists F → MergeRequestLists F
  add_reviews w labels mr l =
      if ltb_ℤ (pos 0) mr.user_notes_count
      then record l {
        time_to_first_review = append_first_review w labels mr l.time_to_first_review;
        review_cycles =
            append_value labels (floats.from_int (half (successor mr.user_notes_count)))
              l.review_cycles;
      }
      else l

  pub add_notes : List String → MergeRequest Time → MergeRequestLists F → MergeRequestLists F
  add_notes labels mr l = record l {
    notes_count = append_value labels (floats.from_int mr.user_notes_count) l.notes_count;
  }

  pub scan_one : String → World → MergeRequest Time → Scan F → Scan F
  scan_one project w mr s =
      let labels = project ∷ mr.target_branch ∷ [] in
      record {
        lists =
            add_reviews w labels mr
              (add_durations w labels mr (add_changes labels mr (add_notes labels mr s.lists)));
        throughput_by_branch =
            if mr.state == "merged"
            then increment s.throughput_by_branch mr.target_branch
            else s.throughput_by_branch;
        status_counts = count_state s.status_counts mr.target_branch mr.state;
      }

  pub scan : String → World → List (MergeRequest Time) → Scan F → Scan F
  scan project w [] s = s
  scan project w (mr ∷ mrs) s = scan project w mrs (scan_one project w mr s)

  -- The gauges of the two maps.
  pub finish_scan : String → Scan F → MergeRequestLists F
  finish_scan project s = record s.lists {
    status = s.lists.status ++ send_branches project s.status_counts;
    throughput = s.lists.throughput ++ send_counts project s.throughput_by_branch;
  }

  pub visit_listed :
      String
      → Result (List (MergeRequest Time)) × World
      → Progress (MergeRequestLists F)
      → Progress (MergeRequestLists F) × World
  visit_listed project (err e, w) p = (record p { errors = suc p.errors }, w)
  visit_listed project (ok mrs, w) p =
      (record p { lists = finish_scan project (scan project w mrs (fresh_scan p.lists)) }, w)

  pub visit :
      String → Progress (MergeRequestLists F) → World → Progress (MergeRequestLists F) × World
  visit project p w = visit_listed project (list_merge_requests project (latest_of "all") w) p

  pub run : MergeRequestsCollector F → World → (Option Error × MergeRequestsCollector F) × World
  run c w = run_sweep host no_lists visit c w
