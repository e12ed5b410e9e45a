-- ===== src/Collector/MergeRequests/Scan/Maps.antt =====
-- internal/collector/merge_requests.go `Run`: no key stands twice in the maps of a scan.
use amazing_gitlab_exporter.Base.{
  ℕ, String, Bool, true, false, List, [], ◌∷◌, ◌==◌, comparable_string, Bool-cases, inl, inr,
  if◌then◌else◌,
}
use amazing_gitlab_exporter.Base.Lists.{All}
use amazing_gitlab_exporter.Base.Dict.{Dict, get, put, Unique, put-Unique}
use amazing_gitlab_exporter.Collector.Histograms.{or_empty}
use amazing_gitlab_exporter.Collector.Listing.{MergeRequest, Lister, Floats}
use amazing_gitlab_exporter.Collector.Tally.{increment, increment-Unique}
use amazing_gitlab_exporter.Collector.Observations.{Host}
use amazing_gitlab_exporter.Collector.MergeRequests.Scan.{Scan, count_state, scan_one, scan}

-- No branch stands twice in the map of states, and no state twice for a branch.
abbrev pub UniqueStates : Dict String (Dict String ℕ) → Type 0
UniqueStates counts = Unique counts × All (λ entry. Unique entry.1) counts

abbrev pub HasMaps : {F : Type 0} → Scan F → Type 0
HasMaps s = Unique s.throughput_by_branch × UniqueStates s.status_counts

get-Unique :
    (counts : Dict String (Dict String ℕ)) (branch : String)
    → All (λ entry. Unique entry.1) counts
    → Unique (or_empty (get counts branch))
unfolding get
get-Unique [] branch h = tt
get-Unique ((b, states) ∷ counts) branch (h, hs) =
    elim (Bool-cases (comparable_string.same b branch)) [
      | inl found ↦ rw found h
      | inr other ↦ rw other (get-Unique counts branch hs)
    ]

put-All :
    (counts : Dict String (Dict String ℕ)) (branch : String) (states : Dict String ℕ)
    → Unique states
    → All (λ entry. Unique entry.1) counts
    → All (λ entry. Unique entry.1) (put counts branch states)
unfolding put
put-All [] branch states h hs = (h, tt)
put-All ((b, old) ∷ counts) branch states h (k, hs) =
    elim (Bool-cases (comparable_string.same b branch)) [
      | inl found ↦ rw found (h, hs)
      | inr other ↦ rw other (k, put-All counts branch states h hs)
    ]

count_state-Unique :
    (counts : Dict String (Dict String ℕ)) (branch state : String)
    → UniqueStates counts
    → UniqueStates (count_state counts branch state)
unfolding count_state
count_state-Unique counts branch state (outer, inner) = (
  put-Unique counts branch _ outer,
  put-All counts branch _ (increment-Unique _ state (get-Unique counts branch inner)) inner,
)

merged-Unique :
    (merged : Bool) (counts : Dict String ℕ) (branch : String)
    → Unique counts
    → Unique (if merged then increment counts branch else counts)
merged-Unique true counts branch h = increment-Unique counts branch h
merged-Unique false counts branch h = h

module _ {World Time F : Type 0} (host : Host World Time F) (floats : Floats F)
    (list_merge_requests : Lister World Time) where
  scan_one-HasMaps :
      (project : String) (w : World) (mr : MergeRequest Time) (s : Scan F)
      → HasMaps s
      → HasMaps (scan_one host floats list_merge_requests project w mr s)
  unfolding scan_one
  scan_one-HasMaps project w mr s (tally, states) = (
    merged-Unique (mr.state == "merged") s.throughput_by_branch mr.target_branch tally,
    count_state-Unique s.status_counts mr.target_branch mr.state states,
  )

  pub scan-HasMaps :
      (project : String) (w : World) (mrs : List (MergeRequest Time)) (s : Scan F)
      → HasMaps s
      → HasMaps (scan host floats list_merge_requests project w mrs s)
  unfolding scan
  scan-HasMaps project w [] s h = h
  scan-HasMaps project w (mr ∷ mrs) s h =
      scan-HasMaps project w mrs _ (scan_one-HasMaps project w mr s h)
