-- ===== src/Collector/MergeRequests/Scan/Visits.antt =====
-- internal/collector/merge_requests.go `Run`: what a visit of a project reports.
use amazing_gitlab_exporter.Base.{ℕ, ◌≡◌, ◌+◌, String, List, ◌++◌, comparable_string}
use amazing_gitlab_exporter.Base.Lists.{length}
use amazing_gitlab_exporter.Base.Dict.{Dict}
use amazing_gitlab_exporter.Collector.Listing.{MergeRequest, Lister, Floats}
use amazing_gitlab_exporter.Collector.Tally.{Counts}
use amazing_gitlab_exporter.Collector.Observations.{Host}
use amazing_gitlab_exporter.Collector.MergeRequests.{MergeRequestLists}
use amazing_gitlab_exporter.Collector.MergeRequests.Scan.{send_branches}
use amazing_gitlab_exporter.Collector.MergeRequests.Scan.Maps.{UniqueStates}
use amazing_gitlab_exporter.Collector.MergeRequests.Scan.Counting.{
  count_in, in_state, merged_branches,
}

module _ {World Time F : Type 0} (host : Host World Time F) (floats : Floats F)
    (list_merge_requests : Lister World Time) where
  -- What a project is reported with: its gauges of states and of merges, and the values of notes.
  abbrev pub Reported :
      String → List (MergeRequest Time) → MergeRequestLists F → MergeRequestLists F → Type 0
  Reported project mrs before after =
      ((states : Dict String (Dict String ℕ)) × UniqueStates states
        × (after.status ≡ before.status ++ send_branches project states)
        × ((branch state : String) → count_in states branch state ≡ in_state mrs branch state))
      × Counts project (merged_branches mrs) before.throughput after.throughput
      × (length after.notes_count ≡ length before.notes_count + length mrs)
