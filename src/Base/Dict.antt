-- ===== src/Base/Dict.antt =====
-- Go's `map` as an association list; the order of its entries is the order of insertion.
use mathlib.Core.Path.{◌≡◌, refl}
use mathlib.Core.Option.{Option, none, some}
use mathlib.Core.List.{List, [], ◌∷◌}
use mathlib.Core.Bool.{false}
use mathlib.Core.Logic.{inl, inr}
use native.Mathlib.Omega.{arith}
use amazing_gitlab_exporter.Base.Tests.{Comparable, Bool-cases, if◌then◌else◌}

abbrev pub Dict {ℓ κ} : Type ℓ → Type κ → Type (ℓ ⊔ κ)
Dict K V = List (K × V)

module _ {ℓ κ} {K : Type ℓ} {V : Type κ} ⦃e : Comparable K⦄ where
  unfoldable pub get : Dict K V → K → Option V
  get [] k = none
  get ((j, v) ∷ m) k = if e.same j k then some v else get m k

  unfoldable pub put : Dict K V → K → V → Dict K V
  put [] k v = (k, v) ∷ []
  put ((j, w) ∷ m) k v = if e.same j k then (j, v) ∷ m else (j, w) ∷ put m k v

  pub get-put :
      (m : Dict K V) (k j : K) (v : V)
      → get (put m k v) j ≡ (if e.same k j then some v else get m j)
  unfolding get put
  get-put [] k j v = refl
  get-put ((i, w) ∷ m) k j v =
      ground (arith, e.same_iff k j, e.same_iff i k, e.same_iff i j, get-put m k j v)

  pub get-put_self : (m : Dict K V) (k : K) (v : V) → get (put m k v) k ≡ some v
  get-put_self m k v = ground (arith, get-put m k k v, e.same_iff k k)

  -- No key stands twice.
  abbrev pub Unique : Dict K V → Type (ℓ ⊔ κ)
  Unique [] = Unit
  Unique ((k, v) ∷ m) = (get m k ≡ none) × Unique m

  put-absent :
      (m : Dict K V) (k j : K) (v : V)
      → e.same j k ≡ false
      → get m j ≡ none
      → get (put m k v) j ≡ none
  put-absent m k j v other fresh =
      ground (arith, get-put m k j v, e.same_iff j k, e.same_iff k j, other, fresh)

  pub put-Unique : (m : Dict K V) (k : K) (v : V) → Unique m → Unique (put m k v)
  unfolding put get
  put-Unique [] k v h = (refl, tt)
  put-Unique ((j, w) ∷ m) k v (fresh, h) = elim (Bool-cases (e.same j k)) [
    | inl found ↦ rw found (fresh, h)
    | inr other ↦ rw other (put-absent m k j v other fresh, put-Unique m k v h)
  ]
