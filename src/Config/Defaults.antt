-- ===== src/Config/Defaults.antt =====
-- internal/config/defaults.go: `ApplyDefaults` assigns the default of each setting that has one,
-- whatever was there before.
use amazing_gitlab_exporter.Base.{true, false, [], ◌∷◌, map}
use amazing_gitlab_exporter.Base.Int.{pos}
use amazing_gitlab_exporter.Base.Float.{whole_float}
use amazing_gitlab_exporter.Config.{CollectorsConfig, GitLabConfig, RefsConfig, Config}

default_gitlab : GitLabConfig → GitLabConfig
default_gitlab g = record g {
  url = "https://gitlab.com";
  enable_tls_verify = true;
  max_requests_per_second = pos 10;
  burst_requests_per_second = pos 20;
  use_graphql = true;
  graphql_page_size = pos 100;
  rest_page_size = pos 100;
}

default_collectors : CollectorsConfig → CollectorsConfig
default_collectors c = record {
  pipelines = record {
    enabled = true;
    interval_seconds = pos 30;
    include_child_pipelines = true;
    histogram_buckets = map whole_float (5 ∷ 10 ∷ 30 ∷ 60 ∷ 120 ∷ 300 ∷ 600 ∷ 1800 ∷ 3600 ∷ []);
    max_pipelines_per_ref = pos 10;
  };
  jobs = record {
    enabled = true;
    interval_seconds = pos 30;
    histogram_buckets = map whole_float (5 ∷ 10 ∷ 30 ∷ 60 ∷ 120 ∷ 300 ∷ 600 ∷ 1800 ∷ []);
    include_runner_details = true;
  };
  merge_requests = record {
    enabled = true;
    interval_seconds = pos 120;
    histogram_buckets =
        map whole_float (3600 ∷ 7200 ∷ 14400 ∷ 28800 ∷ 86400 ∷ 172800 ∷ 604800 ∷ []);
  };
  environments = record { enabled = false; interval_seconds = pos 300; exclude_stopped = true };
  test_reports = record c.test_reports { enabled = false; interval_seconds = pos 60 };
  dora = record {
    enabled = true;
    interval_seconds = pos 3600;
    environment_tiers = "production" ∷ "staging" ∷ [];
  };
  value_stream = record { enabled = true; interval_seconds = pos 3600 };
  code_review = record { enabled = true; interval_seconds = pos 300 };
  repository = record { enabled = true; interval_seconds = pos 3600 };
  contributors = record { enabled = false; interval_seconds = pos 3600 };
}

default_refs : RefsConfig → RefsConfig
default_refs r = record {
  branches = record r.branches {
    enabled = true;
    regexp = "^(main|master|develop|release/.*)$";
    exclude_deleted = true;
  };
  tags = record {
    enabled = true;
    regexp = "^v.*";
    most_recent = pos 10;
    max_age_days = pos 90;
    exclude_deleted = true;
  };
  merge_requests = record {
    enabled = true;
    states = "opened" ∷ "merged" ∷ [];
    most_recent = pos 20;
    max_age_days = pos 30;
  };
}

unfoldable pub apply_defaults : Config → Config
unfolding default_gitlab default_collectors default_refs
apply_defaults cfg = record cfg {
  log = record { level = "info"; format = "text" };
  server = record cfg.server { listen_address = ":8080" };
  gitlab = default_gitlab cfg.gitlab;
  collectors = default_collectors cfg.collectors;
  defaults = record { output_sparse_status_metrics = true; refs = default_refs cfg.defaults.refs };
}
