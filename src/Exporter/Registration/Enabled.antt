-- ===== src/Exporter/Registration/Enabled.antt =====
-- The registered collectors are the enabled ones, each with one task at a positive interval.
use mathlib.Core.List.{append_assoc, append-nil}
use amazing_gitlab_exporter.Base.{
  ◌≡◌, refl, String, Bool, true, false, ◌&&◌, ◌||◌, Option, List, [], ◌∷◌, ◌++◌, ◌==◌,
  comparable_string, Bool-cases, inl, inr, if◌then◌else◌, arith,
}
use amazing_gitlab_exporter.Base.Lists.{All}
use amazing_gitlab_exporter.Base.Int.{ℤ, pos, ◌<ℤ◌}
use amazing_gitlab_exporter.Config.{CollectorsConfig}
use amazing_gitlab_exporter.Gitlab.Tier.{has_feature, DetectedFeatures}
use amazing_gitlab_exporter.Exporter.Registration.{
  CollectorDef, Task, Setup, empty_setup, collector_defs, task_interval, register_one,
  register_defs, register_collectors,
}

or_false : (b : Bool) → (b || false) ≡ b
or_false true = refl
or_false false = refl

-- The names of the enabled definitions, and their tasks.
abbrev enabled_names : List CollectorDef → List String
enabled_names [] = []
enabled_names (d ∷ ds) = if d.enabled then d.name ∷ enabled_names ds else enabled_names ds

abbrev enabled_tasks : List CollectorDef → List Task
enabled_tasks [] = []
enabled_tasks (d ∷ ds) =
    let rest = enabled_tasks ds in
    if d.enabled then record { name = d.name; interval = task_interval d.interval } ∷ rest else rest

register_defs-collectors :
    (s : Setup) (ds : List CollectorDef)
    → (register_defs s ds).collectors ≡ s.collectors ++ enabled_names ds
unfolding register_defs register_one
register_defs-collectors s [] = rw append-nil
register_defs-collectors s (d ∷ ds) = elim (Bool-cases d.enabled) [
  | inl on ↦ rw (register_defs-collectors (register_one s d) ds, on) (rw append_assoc)
  | inr off ↦ rw (register_defs-collectors (register_one s d) ds, off)
]

register_defs-tasks :
    (s : Setup) (ds : List CollectorDef) → (register_defs s ds).tasks ≡ s.tasks ++ enabled_tasks ds
unfolding register_defs register_one
register_defs-tasks s [] = rw append-nil
register_defs-tasks s (d ∷ ds) = elim (Bool-cases d.enabled) [
  | inl on ↦ rw (register_defs-tasks (register_one s d) ds, on) (rw append_assoc)
  | inr off ↦ rw (register_defs-tasks (register_one s d) ds, off)
]

task_interval-pos : (i : ℤ) → pos 0 <ℤ task_interval i
unfolding task_interval
task_interval-pos i = ground arith

-- Whether a list of names holds one.
abbrev pub contains : List String → String → Bool
contains [] name = false
contains (n ∷ ns) name = n == name || contains ns name

-- Whether some enabled definition has the name.
abbrev is_enabled : List CollectorDef → String → Bool
is_enabled [] name = false
is_enabled (d ∷ ds) name =
    if d.name == name then d.enabled || is_enabled ds name else is_enabled ds name

contains-enabled_names :
    (ds : List CollectorDef) (name : String) → contains (enabled_names ds) name ≡ is_enabled ds name
contains-enabled_names [] name = refl
contains-enabled_names (d ∷ ds) name = ground (arith, contains-enabled_names ds name)

module _ (cfg : CollectorsConfig) (features : Option DetectedFeatures) where
  abbrev setup : Setup
  setup = register_collectors cfg features empty_setup

  setup-collectors : setup.collectors ≡ enabled_names (collector_defs cfg features)
  unfolding register_collectors
  setup-collectors = register_defs-collectors empty_setup (collector_defs cfg features)

  setup-contains :
      (name : String)
      → contains setup.collectors name ≡ is_enabled (collector_defs cfg features) name
  setup-contains name =
      rw setup-collectors (contains-enabled_names (collector_defs cfg features) name)

  -- Each of the ten collectors is registered exactly when it is enabled in the configuration, and
  -- the three that need a licence only if the instance was found to have the feature.
  pub registered_exact :
      let registered = contains (register_collectors cfg features empty_setup).collectors in
      (registered "pipelines" ≡ cfg.pipelines.enabled)
      × (registered "jobs" ≡ cfg.jobs.enabled)
      × (registered "merge_requests" ≡ cfg.merge_requests.enabled)
      × (registered "environments" ≡ cfg.environments.enabled)
      × (registered "test_reports" ≡ cfg.test_reports.enabled)
      × (registered "dora" ≡ (cfg.dora.enabled && has_feature (λ f. f.has_dora) features))
      × (registered "value_stream"
          ≡ (cfg.value_stream.enabled && has_feature (λ f. f.has_value_stream) features))
      × (registered "code_review"
          ≡ (cfg.code_review.enabled && has_feature (λ f. f.has_code_review) features))
      × (registered "repository" ≡ cfg.repository.enabled)
      × (registered "contributors" ≡ cfg.contributors.enabled)
  unfolding collector_defs
  registered_exact = (
    rw (setup-contains "pipelines", or_false),
    rw (setup-contains "jobs", or_false),
    rw (setup-contains "merge_requests", or_false),
    rw (setup-contains "environments", or_false),
    rw (setup-contains "test_reports", or_false),
    rw (setup-contains "dora", or_false),
    rw (setup-contains "value_stream", or_false),
    rw (setup-contains "code_review", or_false),
    rw (setup-contains "repository", or_false),
    rw (setup-contains "contributors", or_false),
  )

abbrev pub task_names : List Task → List String
task_names [] = []
task_names (t ∷ ts) = t.name ∷ task_names ts

enabled_tasks-names : (ds : List CollectorDef) → task_names (enabled_tasks ds) ≡ enabled_names ds
enabled_tasks-names [] = refl
enabled_tasks-names (d ∷ ds) = ground (arith, enabled_tasks-names ds)

enabled_tasks-pos : (ds : List CollectorDef) → All (λ t. pos 0 <ℤ t.interval) (enabled_tasks ds)
enabled_tasks-pos [] = tt
enabled_tasks-pos (d ∷ ds) = elim (Bool-cases d.enabled) [
  | inl on ↦ rw on (task_interval-pos d.interval, enabled_tasks-pos ds)
  | inr off ↦ rw off (enabled_tasks-pos ds)
]

-- Every registered collector has one task, in the same order, and every task's interval is positive,
-- so that its ticker can be made.
pub tasks_match :
    (cfg : CollectorsConfig) (features : Option DetectedFeatures)
    → let s = register_collectors cfg features empty_setup in
      (task_names s.tasks ≡ s.collectors) × All (λ t. pos 0 <ℤ t.interval) s.tasks
unfolding register_collectors
tasks_match cfg features =
    let ds = collector_defs cfg features in
    (
      rw (register_defs-tasks empty_setup ds, register_defs-collectors empty_setup ds)
          (enabled_tasks-names ds),
      rw (register_defs-tasks empty_setup ds) (enabled_tasks-pos ds),
    )
