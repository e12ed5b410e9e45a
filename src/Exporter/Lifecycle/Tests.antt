-- ===== src/Exporter/Lifecycle/Tests.antt =====
-- An exporter with one project.
use amazing_gitlab_exporter.Base.{
  ℕ, String, false, ◌≡◌, refl, Option, none, some, List, [], ◌∷◌, comparable_string,
}
use amazing_gitlab_exporter.Base.Lists.{length}
use amazing_gitlab_exporter.Base.Errors.{Error, foreign}
use amazing_gitlab_exporter.Gitlab.RateLimiter.{new_rate_limiter}
use amazing_gitlab_exporter.Gitlab.Api.{Reply, failed}
use amazing_gitlab_exporter.Gitlab.Client.{Client, new_client, created as client_created}
use amazing_gitlab_exporter.Config.{Config}
use amazing_gitlab_exporter.Config.Load.{zero_config}
use amazing_gitlab_exporter.Config.Defaults.{apply_defaults}
use amazing_gitlab_exporter.Exporter.Discovery.{
  ListProjectsOptions, contains as in_list, add_path, add_paths, explicit_names, require_projects,
  expand_all, discover_projects,
}
use amazing_gitlab_exporter.Exporter.Registration.{empty_setup, register_collectors}
use amazing_gitlab_exporter.Exporter.Registration.Enabled.{contains}
use amazing_gitlab_exporter.Exporter.Lifecycle.{
  Exporter, memory, assemble, open_store, with_store, with_client, new_exporter,
}
use amazing_gitlab_exporter.Exporter.Lifecycle.Creation.{created_without_features}

abbrev cfg : Config
cfg = record (apply_defaults zero_config) {
  projects = record { name = "g/a"; output_sparse_status_metrics = none; refs = none } ∷ [];
}

abbrev down : ListProjectsOptions → ℕ → Reply (List String) × ℕ
down o w = (failed (foreign "connection refused"), w)

abbrev accepts : String → String → Option Error
accepts token url = none

abbrev no_redis : String → Option Error
no_redis url = some (foreign "connection refused")

abbrev client : Client
client = record {
  rate_limiter =
      new_rate_limiter cfg.gitlab.max_requests_per_second cfg.gitlab.burst_requests_per_second;
  features = none;
  base_url = cfg.gitlab.url;
  token = cfg.gitlab.token;
  use_graphql = cfg.gitlab.use_graphql;
}

abbrev exporter : Exporter
exporter = record {
  config = cfg;
  client = client;
  store = memory;
  projects_tracked = 1;
  projects = "g/a" ∷ [];
  setup = register_collectors cfg.collectors none empty_setup;
}

created_without_features_example :
    (exporter.client.features ≡ none)
    × (exporter.projects_tracked ≡ length exporter.projects)
    × (contains exporter.setup.collectors "dora" ≡ false)
    × (contains exporter.setup.collectors "value_stream" ≡ false)
    × (contains exporter.setup.collectors "code_review" ≡ false)
    × (contains exporter.setup.collectors "pipelines"
        ≡ exporter.config.collectors.pipelines.enabled)
unfolding new_exporter with_client with_store open_store assemble new_client client_created
    discover_projects expand_all add_paths add_path explicit_names require_projects in_list
    apply_defaults
created_without_features_example =
    created_without_features accepts no_redis down 1 cfg 0 0 exporter refl
