-- ===== src/Collector/Registry.antt =====
-- internal/collector/registry.go. A collector is its name, whether it is enabled, what it sends to
-- Prometheus, and its `Run`.
mod Tests
use mathlib.Core.List.{append-nil}
use amazing_gitlab_exporter.Base.{
  ◌≡◌, refl, ◌∙◌, String, Bool, true, false, Option, none, some, List, [], ◌∷◌, ◌++◌, Bool-cases,
  inl, inr, if◌then◌else◌, arith,
}
use amazing_gitlab_exporter.Base.Errors.{Error}

pub record Collector (World Sample : Type 0) : Type 0 where
  pub name : String
  pub enabled : Bool
  pub collect : List Sample
  pub run : World → Option Error × World

module _ {World Sample : Type 0} where
  -- `Register`, on the list of collectors.
  pub register :
      List (Collector World Sample) → Collector World Sample → List (Collector World Sample)
  register collectors c = collectors ++ c ∷ []

  -- `Collect` sends the metrics of the enabled collectors.
  pub collect_all : List (Collector World Sample) → List Sample
  collect_all [] = []
  collect_all (c ∷ cs) = let rest = collect_all cs in if c.enabled then c.collect ++ rest else rest

  pub run_all : List (Collector World Sample) → World → Option Error × World
  run_all [] w = (none, w)
  run_all (c ∷ cs) w =
      let (e, w1) = c.run w in
      let after = run_all cs w1 in
      let skipped = run_all cs w in
      if c.enabled then elim e [ none ↦ after | some failure ↦ (some failure, w1) ] else skipped

  -- The world after the enabled collectors have run, one after the other.
  abbrev pub world_after : List (Collector World Sample) → World → World
  world_after [] w = w
  world_after (c ∷ cs) w =
      let ran = world_after cs (c.run w).1 in
      let skipped = world_after cs w in if c.enabled then ran else skipped

  -- Every enabled collector succeeds when its turn comes.
  abbrev pub Succeed : List (Collector World Sample) → World → Type 0
  Succeed [] w = Unit
  Succeed (c ∷ cs) w =
      (c.enabled ≡ true → ((c.run w).0 ≡ none) × Succeed cs (c.run w).1)
      × (c.enabled ≡ false → Succeed cs w)

  run_all-append :
      (pre post : List (Collector World Sample)) (w : World)
      → Succeed pre w
      → run_all (pre ++ post) w ≡ run_all post (world_after pre w)
  unfolding run_all
  run_all-append [] post w h = refl
  run_all-append (c ∷ cs) post w h = elim (Bool-cases c.enabled) [
    | inl on ↦
        let (success, rest) = h.0 on in rw (on, success) (run_all-append cs post (c.run w).1 rest)
    | inr off ↦ rw off (run_all-append cs post w (h.1 off))
  ]

  -- Where every enabled collector succeeds, all of them are run in the order of their registration and
  -- there is no error. Where the first to fail is an enabled collector, its error is returned and none
  -- of the collectors after it is run.
  pub run_all_first_error :
      (pre post : List (Collector World Sample)) (c : Collector World Sample) (w : World)
      → Succeed pre w
      → (run_all pre w ≡ (none, world_after pre w))
        × ((e : Error)
            → c.enabled ≡ true
            → (c.run (world_after pre w)).0 ≡ some e
            → run_all (pre ++ c ∷ post) w ≡ (some e, (c.run (world_after pre w)).1))
  unfolding run_all
  run_all_first_error pre post c w h = (
    rw append-nil at (run_all-append pre [] w h),
    λ e on failure. run_all-append pre (c ∷ post) w h ∙ rw (on, failure) refl,
  )
