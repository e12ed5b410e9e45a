-- ===== src/Collector/Tally.antt =====
-- internal/collector: the counting maps of the merge requests and code review collectors,
-- `counts[key]++` on a map whose missing entries read as zero.
use amazing_gitlab_exporter.Base.{
  ℕ, suc, ◌+◌, ◌≡◌, refl, List, [], ◌∷◌, ◌++◌, Comparable, comparable_string, String, Bool-cases,
  inl, inr, arith, if◌then◌else◌,
}
use amazing_gitlab_exporter.Base.Dict.{Dict, get, put, get-put, Unique, put-Unique}
use amazing_gitlab_exporter.Base.Int.{pos}
use amazing_gitlab_exporter.Collector.{whole}
use amazing_gitlab_exporter.Collector.Observations.{LabeledGauge}
use amazing_gitlab_exporter.Collector.Histograms.{or_zero}

module _ {K : Type 0} ⦃e : Comparable K⦄ where
  pub increment : Dict K ℕ → K → Dict K ℕ
  increment counts k = put counts k (suc (or_zero (get counts k)))

  abbrev pub count_of : Dict K ℕ → K → ℕ
  count_of counts k = or_zero (get counts k)

  -- How often a key stands in a list.
  abbrev pub occurrences : List K → K → ℕ
  occurrences [] k = 0
  occurrences (j ∷ js) k = (if e.same j k then 1 else 0) + occurrences js k

  -- The sum of the counts.
  abbrev pub sum_counts : Dict K ℕ → ℕ
  sum_counts [] = 0
  sum_counts ((k, n) ∷ counts) = n + sum_counts counts

  pub increment-Unique : (counts : Dict K ℕ) (k : K) → Unique counts → Unique (increment counts k)
  unfolding increment
  increment-Unique counts k h = put-Unique counts k _ h

  pub count_of-increment :
      (counts : Dict K ℕ) (k j : K)
      → count_of (increment counts k) j ≡ count_of counts j + (if e.same k j then 1 else 0)
  unfolding increment
  count_of-increment counts k j = elim (Bool-cases (e.same k j)) [
    | inl equal ↦
        rw (get-put counts k j (suc (count_of counts k)), equal, (e.same_iff k j).0 equal)
          (omega arith)
    | inr other ↦ rw (get-put counts k j (suc (count_of counts k)), other) (omega arith)
  ]

  pub sum_counts-increment :
      (counts : Dict K ℕ) (k : K) → sum_counts (increment counts k) ≡ suc (sum_counts counts)
  unfolding increment put get
  sum_counts-increment [] k = refl
  sum_counts-increment ((j, n) ∷ counts) k = elim (Bool-cases (e.same j k)) [
    | inl found ↦ rw found (omega arith)
    | inr other ↦ rw other (omega (arith, sum_counts-increment counts k))
  ]

  pub occurrences-append :
      (xs ys : List K) (k : K) → occurrences (xs ++ ys) k ≡ occurrences xs k + occurrences ys k
  occurrences-append [] ys k = omega arith
  occurrences-append (x ∷ xs) ys k = omega (arith, occurrences-append xs ys k)

-- The gauges of a map's entries.
pub send_counts : {F : Type 0} → String → Dict String ℕ → List (LabeledGauge F)
send_counts project [] = []
send_counts project ((key, n) ∷ counts) =
    record { labels = project ∷ key ∷ []; value = whole (pos n) } ∷ send_counts project counts

-- The gauges are the old ones and one for each key of a map, in which no key stands twice, with the number
-- of the key's occurrences.
abbrev pub Counts :
    {F : Type 0} → String → List String → List (LabeledGauge F) → List (LabeledGauge F) → Type 0
Counts project keys old new =
    (counts : Dict String ℕ) × Unique counts
    × (new ≡ old ++ send_counts project counts)
    × ((key : String) → count_of counts key ≡ occurrences keys key)
