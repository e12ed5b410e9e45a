-- ===== src/Collector/Histograms.antt =====
-- internal/collector/merge_requests.go `emitHistograms`. Floating-point numbers are a type `F` with its
-- order, its sum and the equality of map keys; the maps' entries are in the order of their insertion,
-- where Go's order is not specified.
pub mod Buckets
mod Tests
use amazing_gitlab_exporter.Base.{
  ℕ, suc, String, Bool, Option, none, some, List, [], ◌∷◌, ◌++◌, Comparable, comparable_string,
  comparable_list, if◌then◌else◌,
}
use amazing_gitlab_exporter.Base.Lists.{length}
use amazing_gitlab_exporter.Base.Dict.{Dict, get, put}

pub record LabeledValue (F : Type 0) : Type 0 where
  pub labels : List String
  pub value : F

-- The arguments of `NewConstHistogram`.
pub record Histogram (F : Type 0) : Type 0 where
  pub count : ℕ
  pub sum : F
  pub buckets : Dict F ℕ
  pub labels : List String

-- The struct `key`, of the first two labels.
pub group_key : List String → List String
group_key [] = "" ∷ "" ∷ []
group_key (a ∷ []) = a ∷ "" ∷ []
group_key (a ∷ b ∷ rest) = a ∷ b ∷ []

-- A missing key reads as the zero value of its type.
abbrev pub or_empty : {A : Type 0} → Option (List A) → List A
or_empty none = []
or_empty (some xs) = xs

abbrev pub or_zero : Option ℕ → ℕ
or_zero none = 0
or_zero (some n) = n

module _ {F : Type 0} ⦃e : Comparable F⦄ (zero_float : F) (add : F → F → F)
    (le : F → F → Bool) where
  pub group_values :
      Dict (List String) (List F) → List (LabeledValue F) → Dict (List String) (List F)
  group_values groups [] = groups
  group_values groups (v ∷ vs) =
      let k = group_key v.labels in
      group_values (put groups k (or_empty (get groups k) ++ v.value ∷ [])) vs

  pub group_labels :
      Dict (List String) (List String) → List (LabeledValue F) → Dict (List String) (List String)
  group_labels labels [] = labels
  group_labels labels (v ∷ vs) = group_labels (put labels (group_key v.labels) v.labels) vs

  -- `for _, b := range buckets { bucketCounts[b] = 0 }`
  pub zero_counts : Dict F ℕ → List F → Dict F ℕ
  zero_counts m [] = m
  zero_counts m (b ∷ bs) = zero_counts (put m b 0) bs

  -- `for _, b := range buckets { if v <= b { bucketCounts[b]++ } }`
  pub count_value : F → Dict F ℕ → List F → Dict F ℕ
  count_value v m [] = m
  count_value v m (b ∷ bs) =
      count_value v (if le v b then put m b (suc (or_zero (get m b))) else m) bs

  pub count_values : List F → Dict F ℕ → List F → Dict F ℕ
  count_values [] m buckets = m
  count_values (v ∷ vs) m buckets = count_values vs (count_value v m buckets) buckets

  pub total : F → List F → F
  total sum [] = sum
  total sum (v ∷ vs) = total (add sum v) vs

  pub final_buckets : Dict F ℕ → Dict F ℕ → List F → Dict F ℕ
  final_buckets counts m [] = m
  final_buckets counts m (b ∷ bs) = final_buckets counts (put m b (or_zero (get counts b))) bs

  pub histogram : List F → List F → List String → Histogram F
  histogram buckets vals labels = record {
    count = length vals;
    sum = total zero_float vals;
    buckets = final_buckets (count_values vals (zero_counts [] buckets) buckets) [] buckets;
    labels = labels;
  }

  -- The histograms of the groups; one that `NewConstHistogram` refuses is left out.
  pub emit_groups :
      (Histogram F → Bool)
      → List F
      → Dict (List String) (List String)
      → Dict (List String) (List F)
      → List (Histogram F)
  emit_groups accepts buckets labels [] = []
  emit_groups accepts buckets labels ((k, vals) ∷ groups) =
      let h = histogram buckets vals (or_empty (get labels k)) in
      let rest = emit_groups accepts buckets labels groups in if accepts h then h ∷ rest else rest

  pub emit_histograms : (Histogram F → Bool) → List (LabeledValue F) → List F → List (Histogram F)
  emit_histograms accepts values buckets =
      emit_groups accepts buckets (group_labels [] values) (group_values [] values)
