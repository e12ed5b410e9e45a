-- ===== src/Exporter/Registration.antt =====
-- internal/exporter/exporter.go `registerCollectors`: which collectors are created and registered,
-- and the periodic task of each. A collector is known by its name, which its `Name` returns.
pub mod Enabled
mod Tests
use amazing_gitlab_exporter.Base.{
  ℕ, suc, ◌-◌, ◌*◌, ◌%◌, ◌^◌, String, Bool, true, false, ◌&&◌, Option, none, some, List, [], ◌∷◌,
  ◌++◌, comparable_string, if◌then◌else◌,
}
use amazing_gitlab_exporter.Base.Int.{ℤ, pos, negsuc, leb_ℤ, wrap64}
use amazing_gitlab_exporter.Base.Dict.{Dict, put}
use amazing_gitlab_exporter.Config.{CollectorsConfig}
use amazing_gitlab_exporter.Gitlab.RateLimiter.{nanoseconds}
use amazing_gitlab_exporter.Gitlab.Tier.{DetectedFeatures, has_feature}

-- `time.Duration(s) * time.Second`, in an `int64`.
pub seconds : ℤ → ℤ
seconds (pos n) = wrap64 (n * nanoseconds)
seconds (negsuc n) = wrap64 (2 ^ 64 - (suc n * nanoseconds) % 2 ^ 64)

pub record CollectorDef : Type 0 where
  pub name : String
  pub enabled : Bool
  pub interval : ℤ

pub record Task : Type 0 where
  pub name : String
  pub interval : ℤ

-- The registry, the scheduler's tasks and the gauge `age_collector_enabled`.
pub record Setup : Type 0 where
  pub collectors : List String
  pub tasks : List Task
  pub collector_enabled : Dict String ℕ

abbrev pub empty_setup : Setup
empty_setup = record { collectors = []; tasks = []; collector_enabled = [] }

pub collector_defs : CollectorsConfig → Option DetectedFeatures → List CollectorDef
unfolding seconds
collector_defs cfg features =
    record {
      name = "pipelines";
      enabled = cfg.pipelines.enabled;
      interval = seconds cfg.pipelines.interval_seconds;
    }
    ∷ record {
      name = "jobs";
      enabled = cfg.jobs.enabled;
      interval = seconds cfg.jobs.interval_seconds;
    }
    ∷ record {
      name = "merge_requests";
      enabled = cfg.merge_requests.enabled;
      interval = seconds cfg.merge_requests.interval_seconds;
    }
    ∷ record {
      name = "environments";
      enabled = cfg.environments.enabled;
      interval = seconds cfg.environments.interval_seconds;
    }
    ∷ record {
      name = "test_reports";
      enabled = cfg.test_reports.enabled;
      interval = seconds cfg.test_reports.interval_seconds;
    }
    ∷ record {
      name = "dora";
      enabled = cfg.dora.enabled && has_feature (λ f. f.has_dora) features;
      interval = seconds cfg.dora.interval_seconds;
    }
    ∷ record {
      name = "value_stream";
      enabled = cfg.value_stream.enabled && has_feature (λ f. f.has_value_stream) features;
      interval = seconds cfg.value_stream.interval_seconds;
    }
    ∷ record {
      name = "code_review";
      enabled = cfg.code_review.enabled && has_feature (λ f. f.has_code_review) features;
      interval = seconds cfg.code_review.interval_seconds;
    }
    ∷ record {
      name = "repository";
      enabled = cfg.repository.enabled;
      interval = seconds cfg.repository.interval_seconds;
    }
    ∷ record {
      name = "contributors";
      enabled = cfg.contributors.enabled;
      interval = seconds cfg.contributors.interval_seconds;
    }
    ∷ []

-- An interval that is not positive becomes 30 seconds.
pub task_interval : ℤ → ℤ
task_interval interval = if leb_ℤ interval (pos 0) then pos (30 * nanoseconds) else interval

pub register_one : Setup → CollectorDef → Setup
register_one s d =
    let gauge = put s.collector_enabled d.name (if d.enabled then 1 else 0) in
    if d.enabled
    then record {
      collectors = s.collectors ++ d.name ∷ [];
      tasks = s.tasks ++ record { name = d.name; interval = task_interval d.interval } ∷ [];
      collector_enabled = gauge;
    }
    else record s { collector_enabled = gauge }

pub register_defs : Setup → List CollectorDef → Setup
register_defs s [] = s
register_defs s (d ∷ ds) = register_defs (register_one s d) ds

pub register_collectors : CollectorsConfig → Option DetectedFeatures → Setup → Setup
register_collectors cfg features s = register_defs s (collector_defs cfg features)
