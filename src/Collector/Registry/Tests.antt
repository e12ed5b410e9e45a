-- ===== src/Collector/Registry/Tests.antt =====
-- A disabled collector, one that succeeds, one that fails, and one that is not reached.
use amazing_gitlab_exporter.Base.{
  ℕ, suc, String, Bool, true, false, ◌≡◌, refl, Option, none, some, List, [], ◌∷◌, ◌++◌,
}
use amazing_gitlab_exporter.Base.Errors.{Error, context}
use amazing_gitlab_exporter.Collector.Registry.{
  Collector, run_all, world_after, run_all_first_error,
}

abbrev counting : String → Bool → Option Error → Collector ℕ ℕ
counting name enabled e = record {
  name = name;
  enabled = enabled;
  collect = [];
  run = λ w. (e, suc w);
}

abbrev before : List (Collector ℕ ℕ)
before = counting "jobs" false (some context) ∷ counting "pipelines" true none ∷ []

abbrev failing : Collector ℕ ℕ
failing = counting "environments" true (some context)

run_all_first_error_example :
    (run_all before 0 ≡ (none, world_after before 0))
    × ((e : Error)
        → failing.enabled ≡ true
        → (failing.run (world_after before 0)).0 ≡ some e
        → run_all (before ++ failing ∷ counting "dora" true none ∷ []) 0
          ≡ (some e, (failing.run (world_after before 0)).1))
run_all_first_error_example =
    run_all_first_error before (counting "dora" true none ∷ []) failing 0
      ((λ h. absurd (cc h)), (λ h. ((λ k. (refl, tt)), (λ k. absurd (cc k)))))
