-- ===== src/Exporter/Registration/Tests.antt =====
-- The default collectors on an instance with all features.
use amazing_gitlab_exporter.Base.{true, ◌&&◌, ◌≡◌, Option, some}
use amazing_gitlab_exporter.Config.{CollectorsConfig}
use amazing_gitlab_exporter.Config.Load.{zero_config}
use amazing_gitlab_exporter.Config.Defaults.{apply_defaults}
use amazing_gitlab_exporter.Gitlab.Tier.{has_feature, DetectedFeatures, tier_ultimate}
use amazing_gitlab_exporter.Exporter.Registration.{empty_setup, register_collectors}
use amazing_gitlab_exporter.Exporter.Registration.Enabled.{contains, registered_exact}

abbrev collectors : CollectorsConfig
collectors = (apply_defaults zero_config).collectors

abbrev ultimate : Option DetectedFeatures
ultimate = some (record {
  has_dora = true;
  has_value_stream = true;
  has_mr_analytics = true;
  has_code_review = true;
  tier = tier_ultimate;
  gitlab_version = "17.5.0";
})

registered_exact_example :
    let registered = contains (register_collectors collectors ultimate empty_setup).collectors in
    (registered "pipelines" ≡ collectors.pipelines.enabled)
    × (registered "jobs" ≡ collectors.jobs.enabled)
    × (registered "merge_requests" ≡ collectors.merge_requests.enabled)
    × (registered "environments" ≡ collectors.environments.enabled)
    × (registered "test_reports" ≡ collectors.test_reports.enabled)
    × (registered "dora" ≡ (collectors.dora.enabled && has_feature (λ f. f.has_dora) ultimate))
    × (registered "value_stream"
        ≡ (collectors.value_stream.enabled && has_feature (λ f. f.has_value_stream) ultimate))
    × (registered "code_review"
        ≡ (collectors.code_review.enabled && has_feature (λ f. f.has_code_review) ultimate))
    × (registered "repository" ≡ collectors.repository.enabled)
    × (registered "contributors" ≡ collectors.contributors.enabled)
registered_exact_example = registered_exact collectors ultimate
