-- ===== src/Collector/Histograms/Buckets.antt =====
-- What the buckets and the groups of the emitted histograms hold.
use mathlib.Core.List.{append_assoc, append-nil}
use native.Mathlib.Nat.{suc-mul}
use amazing_gitlab_exporter.Base.{
  ℕ, suc, ◌+◌, ◌*◌, ◌≡◌, ◌≢◌, refl, ap, ◌∙◌, String, Bool, true, false, some, List, [], ◌∷◌, ◌++◌,
  ◌==◌, Comparable, comparable_string, comparable_list, Bool-cases, inl, inr, if◌then◌else◌, arith,
}
use amazing_gitlab_exporter.Base.Lists.{length}
use amazing_gitlab_exporter.Base.Dict.{Dict, get, put, get-put}
use amazing_gitlab_exporter.Collector.Histograms.{
  LabeledValue, group_key, or_empty, or_zero, group_values, zero_counts, count_value, count_values,
  final_buckets, histogram,
}

module _ {F : Type 0} ⦃e : Comparable F⦄ (zero_float : F) (add : F → F → F)
    (le : F → F → Bool) where
  -- How often a bound stands in the list of buckets.
  abbrev pub occurrences : F → List F → ℕ
  occurrences x [] = 0
  occurrences x (b ∷ bs) = let rest = occurrences x bs in if e.same b x then suc rest else rest

  -- How many values are at most a bound.
  abbrev pub at_most : F → List F → ℕ
  at_most x [] = 0
  at_most x (v ∷ vs) = let rest = at_most x vs in if le v x then suc rest else rest

  zero_counts-keeps :
      (m : Dict F ℕ) (bs : List F) (x : F)
      → get m x ≡ some 0
      → get (zero_counts zero_float add le m bs) x ≡ some 0
  unfolding zero_counts
  zero_counts-keeps m [] x h = h
  zero_counts-keeps m (b ∷ bs) x h =
      zero_counts-keeps (put m b 0) bs x (rw (get-put m b x 0, h) (ground arith))

  zero_counts-get :
      (m : Dict F ℕ) (bs : List F) (x : F)
      → occurrences x bs ≢ 0
      → get (zero_counts zero_float add le m bs) x ≡ some 0
  unfolding zero_counts
  zero_counts-get m [] x h = absurd (h refl)
  zero_counts-get m (b ∷ bs) x h = elim (Bool-cases (e.same b x)) [
    | inl equal ↦ zero_counts-keeps (put m b 0) bs x (rw (get-put m b x 0, equal) refl)
    | inr other ↦ zero_counts-get (put m b 0) bs x (λ k. h (rw other k))
  ]

  same-le : (v b x : F) → (e.same b x ≡ true) → le v b ≡ le v x
  same-le v b x h = ap (le v) ((e.same_iff b x).0 h)

  bump-get :
      (v : F) (m : Dict F ℕ) (b x : F) (n : ℕ)
      → get m x ≡ some n
      → get (if le v b then put m b (suc (or_zero (get m b))) else m) x
        ≡ some (if e.same b x then (if le v x then suc n else n) else n)
  bump-get v m b x n h = elim (Bool-cases (e.same b x)) [
    | inl equal ↦
        let same : b ≡ x = (e.same_iff b x).0 equal in
        elim (Bool-cases (le v x)) [
          | inl below ↦ rw (equal, same-le v b x equal, below, get-put m b x _, equal, same, h) refl
          | inr above ↦ rw (equal, same-le v b x equal, above, h) refl
        ]
    | inr other ↦ elim (Bool-cases (le v b)) [
      | inl below ↦ rw (below, other, get-put m b x _, other, h) refl
      | inr above ↦ rw (above, other, h) refl
    ]
  ]

  count_value-get :
      (v : F) (m : Dict F ℕ) (bs : List F) (x : F) (n : ℕ)
      → get m x ≡ some n
      → get (count_value zero_float add le v m bs) x
        ≡ some (n + (if le v x then occurrences x bs else 0))
  unfolding count_value
  count_value-get v m [] x n h = rw h (ground arith)
  count_value-get v m (b ∷ bs) x n h =
      count_value-get v (if le v b then put m b (suc (or_zero (get m b))) else m) bs x _
        (bump-get v m b x n h)
      ∙ ap some (ground arith)

  count_values-get :
      (vs : List F) (m : Dict F ℕ) (bs : List F) (x : F) (n : ℕ)
      → get m x ≡ some n
      → get (count_values zero_float add le vs m bs) x ≡ some (n + at_most x vs * occurrences x bs)
  unfolding count_values
  count_values-get [] m bs x n h = rw h (ap some (ground arith))
  count_values-get (v ∷ vs) m bs x n h =
      count_values-get vs (count_value zero_float add le v m bs) bs x _
        (count_value-get v m bs x n h)
      ∙ ap some (elim (Bool-cases (le v x)) [
        | inl below ↦ rw (below, suc-mul (at_most x vs) (occurrences x bs)) (omega arith)
        | inr above ↦ rw above (omega arith)
      ])

  final_buckets-keeps :
      (counts m : Dict F ℕ) (bs : List F) (x : F)
      → get m x ≡ some (or_zero (get counts x))
      → get (final_buckets zero_float add le counts m bs) x ≡ some (or_zero (get counts x))
  unfolding final_buckets
  final_buckets-keeps counts m [] x h = h
  final_buckets-keeps counts m (b ∷ bs) x h =
      final_buckets-keeps counts (put m b (or_zero (get counts b))) bs x
        (elim (Bool-cases (e.same b x)) [
          | inl equal ↦ rw (get-put m b x _, equal, (e.same_iff b x).0 equal) refl
          | inr other ↦ rw (get-put m b x _, other) h
        ])

  final_buckets-get :
      (counts m : Dict F ℕ) (bs : List F) (x : F)
      → occurrences x bs ≢ 0
      → get (final_buckets zero_float add le counts m bs) x ≡ some (or_zero (get counts x))
  unfolding final_buckets
  final_buckets-get counts m [] x h = absurd (h refl)
  final_buckets-get counts m (b ∷ bs) x h = elim (Bool-cases (e.same b x)) [
    | inl equal ↦
        final_buckets-keeps counts (put m b (or_zero (get counts b))) bs x
          (rw (get-put m b x _, equal, (e.same_iff b x).0 equal) refl)
    | inr other ↦
        final_buckets-get counts (put m b (or_zero (get counts b))) bs x (λ k. h (rw other k))
  ]

  -- A histogram counts all its values, and under each of its bounds the values that are at most the
  -- bound, once for each time that the bound stands in the configured list.
  pub histogram_counts :
      (buckets vals : List F) (labels : List String) (bound : F)
      → occurrences bound buckets ≢ 0
      → let h = histogram zero_float add le buckets vals labels in
        (h.count ≡ length vals)
        × (get h.buckets bound ≡ some (at_most bound vals * occurrences bound buckets))
  unfolding histogram
  histogram_counts buckets vals labels bound h = (
    refl,
    final_buckets-get
          (count_values zero_float add le vals (zero_counts zero_float add le [] buckets) buckets)
          [] buckets bound h
        ∙ rw
            (count_values-get vals (zero_counts zero_float add le [] buckets) buckets bound 0
              (zero_counts-get [] buckets bound h))
            (ap some (omega arith)),
  )

  -- The values of a group, in their order.
  abbrev pub values_of : List String → List (LabeledValue F) → List F
  values_of k [] = []
  values_of k (v ∷ vs) =
      let rest = values_of k vs in if group_key v.labels == k then v.value ∷ rest else rest

  one_or_none :
      (b : Bool) (x : F) (xs : List F)
      → (if b then x ∷ [] else []) ++ xs ≡ (if b then x ∷ xs else xs)
  one_or_none true x xs = refl
  one_or_none false x xs = refl

  put-group :
      (groups : Dict (List String) (List F)) (j k : List String) (x : F)
      → or_empty (get (put groups j (or_empty (get groups j) ++ x ∷ [])) k)
        ≡ or_empty (get groups k) ++ (if j == k then x ∷ [] else [])
  put-group groups j k x = elim (Bool-cases (j == k)) [
    | inl equal ↦ rw (get-put groups j k _, equal, (comparable_list.same_iff j k).0 equal) refl
    | inr other ↦ rw (get-put groups j k _, other, append-nil) refl
  ]

  group_values-from :
      (groups : Dict (List String) (List F)) (vs : List (LabeledValue F)) (k : List String)
      → or_empty (get (group_values zero_float add le groups vs) k)
        ≡ or_empty (get groups k) ++ values_of k vs
  unfolding group_values
  group_values-from groups [] k = rw append-nil refl
  group_values-from groups (v ∷ vs) k =
      group_values-from
        (put groups (group_key v.labels)
          (or_empty (get groups (group_key v.labels)) ++ v.value ∷ []))
        vs k
      ∙ rw (put-group groups (group_key v.labels) k v.value, append_assoc)
          (ap (λ xs. or_empty (get groups k) ++ xs)
            (one_or_none (group_key v.labels == k) v.value (values_of k vs)))

  -- The group of a key holds exactly the values whose first two labels make the key, in their order.
  pub group_exact :
      (vs : List (LabeledValue F)) (k : List String)
      → or_empty (get (group_values zero_float add le [] vs) k) ≡ values_of k vs
  unfolding get
  group_exact vs k = group_values-from [] vs k
