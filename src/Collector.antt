-- ===== src/Collector.antt =====
-- internal/collector: what the collectors fetch from GitLab, and what they tell Prometheus. The metric
-- vectors belong to the Prometheus client library, so the effect of a collector that has some is the
-- sequence of its calls on them, and a label list of the wrong length makes `WithLabelValues` panic. The
-- other collectors keep what they observed (Observations).
pub mod Pipelines
pub mod Jobs
pub mod Environments
pub mod Registry
pub mod Histograms
pub mod Observations
pub mod Contributors
pub mod Tally
pub mod Listing
pub mod CodeReview
pub mod MergeRequests
pub mod TestReports
pub mod Repository
pub mod Dora
pub mod ValueStream
use amazing_gitlab_exporter.Base.{ℕ, ◌≡◌, String, List, [], ◌∷◌, ◌++◌}
use amazing_gitlab_exporter.Base.Lists.{All, length}
use amazing_gitlab_exporter.Base.Int.{ℤ}

-- A `float64`: a converted integer, or a number of the type `F` of floating-point numbers.
pub data Value (F : Type 0) : Type 0 where
  whole : ℤ → Value F
  float : F → Value F

pub data Op (F : Type 0) : Type 0 where
  observe set : Value F → Op F
  inc : Op F

-- One call on a metric vector: `v.WithLabelValues(labels...).Set(1)` and the like.
pub record Call (M F : Type 0) : Type 0 where
  pub metric : M
  pub labels : List String
  pub op : Op F

-- The number of label values is the one that the metric was made with.
abbrev pub IsLabelled : {M F : Type 0} → (M → List String) → Call M F → Type 0
IsLabelled label_names c = length c.labels ≡ length (label_names c.metric)

pub All-append :
    {C : Type 0} (P : C → Type 0) (xs ys : List C) → All P xs → All P ys → All P (xs ++ ys)
All-append P [] ys p q = q
All-append P (x ∷ xs) ys (p, ps) q = (p, All-append P xs ys ps q)

module _ {A C W : Type 0} where
  -- A `for` loop whose body makes calls and talks to the outside world.
  pub each : (A → W → List C × W) → List A → W → List C × W
  each body [] w = ([], w)
  each body (x ∷ xs) w =
      let (calls, w1) = body x w in let (rest, w2) = each body xs w1 in (calls ++ rest, w2)

  -- What holds of the calls of every round holds of the calls of the loop.
  pub each-All :
      (P : C → Type 0) (body : A → W → List C × W)
      → ((x : A) (w : W) → All P (body x w).0)
      → (xs : List A) (w : W) → All P (each body xs w).0
  unfolding each
  each-All P body h [] w = tt
  each-All P body h (x ∷ xs) w =
      All-append P (body x w).0 (each body xs (body x w).1).0 (h x w)
        (each-All P body h xs (body x w).1)
