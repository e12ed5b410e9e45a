-- ===== src/Config.antt =====
-- internal/config/config.go: the configuration and its redaction.
pub mod Validation
pub mod Defaults
pub mod Env
pub mod Redaction
pub mod Load
use amazing_gitlab_exporter.Base.{
  ℕ, String, Bool, Option, List, ◌*◌, ◌==◌, comparable_string, if◌then◌else◌,
}
use amazing_gitlab_exporter.Base.Int.{ℤ}
use amazing_gitlab_exporter.Base.Float.{Float64}

pub record LogConfig : Type 0 where
  pub level : String
  pub format : String

pub record WebhookConfig : Type 0 where
  pub enabled : Bool
  pub secret_token : String

pub record ServerConfig : Type 0 where
  pub listen_address : String
  pub enable_pprof : Bool
  pub webhook : WebhookConfig

pub record RedisConfig : Type 0 where
  pub url : String
  pub pool_size : ℤ
  pub min_idle_conns : ℤ

pub record GitLabConfig : Type 0 where
  pub url : String
  pub token : String
  pub enable_tls_verify : Bool
  pub ca_cert_path : String
  pub max_requests_per_second : ℤ
  pub burst_requests_per_second : ℤ
  pub use_graphql : Bool
  pub graphql_page_size : ℤ
  pub rest_page_size : ℤ

pub record PipelinesCollectorConfig : Type 0 where
  pub enabled : Bool
  pub interval_seconds : ℤ
  pub include_child_pipelines : Bool
  pub histogram_buckets : List Float64
  pub max_pipelines_per_ref : ℤ

pub record JobsCollectorConfig : Type 0 where
  pub enabled : Bool
  pub interval_seconds : ℤ
  pub histogram_buckets : List Float64
  pub include_runner_details : Bool

pub record MergeRequestsCollectorConfig : Type 0 where
  pub enabled : Bool
  pub interval_seconds : ℤ
  pub histogram_buckets : List Float64

pub record EnvironmentsCollectorConfig : Type 0 where
  pub enabled : Bool
  pub interval_seconds : ℤ
  pub exclude_stopped : Bool

pub record TestReportsCollectorConfig : Type 0 where
  pub enabled : Bool
  pub interval_seconds : ℤ
  pub include_test_cases : Bool

pub record DoraCollectorConfig : Type 0 where
  pub enabled : Bool
  pub interval_seconds : ℤ
  pub environment_tiers : List String

-- The value stream, code review, repository and contributors collectors have no other setting.
pub record PlainCollectorConfig : Type 0 where
  pub enabled : Bool
  pub interval_seconds : ℤ

pub record CollectorsConfig : Type 0 where
  pub pipelines : PipelinesCollectorConfig
  pub jobs : JobsCollectorConfig
  pub merge_requests : MergeRequestsCollectorConfig
  pub environments : EnvironmentsCollectorConfig
  pub test_reports : TestReportsCollectorConfig
  pub dora : DoraCollectorConfig
  pub value_stream : PlainCollectorConfig
  pub code_review : PlainCollectorConfig
  pub repository : PlainCollectorConfig
  pub contributors : PlainCollectorConfig

pub record BranchesConfig : Type 0 where
  pub enabled : Bool
  pub regexp : String
  pub most_recent : ℤ
  pub max_age_days : ℤ
  pub exclude_deleted : Bool

pub record TagsConfig : Type 0 where
  pub enabled : Bool
  pub regexp : String
  pub most_recent : ℤ
  pub max_age_days : ℤ
  pub exclude_deleted : Bool

pub record MergeRequestsRefConfig : Type 0 where
  pub enabled : Bool
  pub states : List String
  pub most_recent : ℤ
  pub max_age_days : ℤ

pub record RefsConfig : Type 0 where
  pub branches : BranchesConfig
  pub tags : TagsConfig
  pub merge_requests : MergeRequestsRefConfig

pub record ProjectDefaults : Type 0 where
  pub output_sparse_status_metrics : Bool
  pub refs : RefsConfig

pub record ProjectConfig : Type 0 where
  pub name : String
  pub output_sparse_status_metrics : Option Bool
  pub refs : Option RefsConfig

pub record OwnerConfig : Type 0 where
  pub name : String
  pub kind : String
  pub include_subgroups : Bool

pub record WildcardConfig : Type 0 where
  pub owner : OwnerConfig
  pub search : String
  pub archived : Bool
  pub refs : Option RefsConfig

pub record Config : Type 0 where
  pub log : LogConfig
  pub server : ServerConfig
  pub redis : RedisConfig
  pub gitlab : GitLabConfig
  pub collectors : CollectorsConfig
  pub defaults : ProjectDefaults
  pub projects : List ProjectConfig
  pub wildcards : List WildcardConfig

pub redact_string : String → String
redact_string s = if s == "" then "" else "****"

pub redacted : Config → Config
redacted c = record c {
  gitlab = record c.gitlab { token = redact_string c.gitlab.token };
  server = record c.server {
    webhook = record c.server.webhook {
      secret_token = redact_string c.server.webhook.secret_token;
    };
  };
  redis = record c.redis { url = redact_string c.redis.url };
}
