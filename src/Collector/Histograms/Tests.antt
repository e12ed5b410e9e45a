-- ===== src/Collector/Histograms/Tests.antt =====
-- Numbers stand for floating-point ones; one bound stands twice in the list.
use amazing_gitlab_exporter.Base.{
  ℕ, ◌+◌, ◌*◌, leb, ◌≡◌, some, List, [], ◌∷◌, comparable_nat, comparable_string, comparable_list,
  arith,
}
use amazing_gitlab_exporter.Base.Lists.{length}
use amazing_gitlab_exporter.Base.Dict.{get}
use amazing_gitlab_exporter.Collector.Histograms.{LabeledValue, histogram}
use amazing_gitlab_exporter.Collector.Histograms.Buckets.{occurrences, at_most, histogram_counts}

abbrev add : ℕ → ℕ → ℕ
add a b = a + b

abbrev bounds : List ℕ
bounds = 60 ∷ 300 ∷ 60 ∷ []

abbrev seconds : List ℕ
seconds = 45 ∷ 200 ∷ 10 ∷ []

histogram_counts_example :
    let h = histogram 0 add leb bounds seconds ("g/a" ∷ "main" ∷ []) in
    (h.count ≡ length seconds)
    × (get h.buckets 60 ≡ some (at_most 0 add leb 60 seconds * occurrences 0 add leb 60 bounds))
histogram_counts_example =
    histogram_counts 0 add leb bounds seconds ("g/a" ∷ "main" ∷ []) 60
      (λ h. absurd (omega (arith, h)))

abbrev values : List (LabeledValue ℕ)
values =
    record { labels = "g/a" ∷ "main" ∷ []; value = 45 }
    ∷ record { labels = "g/a" ∷ "dev" ∷ []; value = 200 }
    ∷ record { labels = "g/a" ∷ "main" ∷ []; value = 10 }
    ∷ []
