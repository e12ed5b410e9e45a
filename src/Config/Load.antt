-- ===== src/Config/Load.antt =====
-- internal/config/config.go `Load`, and the configuring half of the `run` command in
-- cmd/amazing-gitlab-exporter/main.go. Reading the file, the YAML decoder and the validator are
-- parameters.
pub mod Startup
mod Tests
use amazing_gitlab_exporter.Base.{
  String, Bool, false, ◌≡◌, refl, Option, none, some, List, [], ◌∷◌, ◌==◌, comparable_string,
  if◌then◌else◌, arith,
}
use amazing_gitlab_exporter.Base.Int.{ℤ, pos}
use amazing_gitlab_exporter.Base.Errors.{text, Error, new, wrap, Result, ok, err}
use amazing_gitlab_exporter.Config.{RefsConfig, PlainCollectorConfig, Config}
use amazing_gitlab_exporter.Config.Defaults.{apply_defaults}
use amazing_gitlab_exporter.Config.Env.{apply_env_overrides}

-- `Config{}`
abbrev no_refs : RefsConfig
no_refs = record {
  branches = record {
    enabled = false;
    regexp = "";
    most_recent = pos 0;
    max_age_days = pos 0;
    exclude_deleted = false;
  };
  tags = record {
    enabled = false;
    regexp = "";
    most_recent = pos 0;
    max_age_days = pos 0;
    exclude_deleted = false;
  };
  merge_requests = record {
    enabled = false;
    states = [];
    most_recent = pos 0;
    max_age_days = pos 0;
  };
}

abbrev off : PlainCollectorConfig
off = record { enabled = false; interval_seconds = pos 0 }

abbrev pub zero_config : Config
zero_config = record {
  log = record { level = ""; format = "" };
  server = record {
    listen_address = "";
    enable_pprof = false;
    webhook = record { enabled = false; secret_token = "" };
  };
  redis = record { url = ""; pool_size = pos 0; min_idle_conns = pos 0 };
  gitlab = record {
    url = "";
    token = "";
    enable_tls_verify = false;
    ca_cert_path = "";
    max_requests_per_second = pos 0;
    burst_requests_per_second = pos 0;
    use_graphql = false;
    graphql_page_size = pos 0;
    rest_page_size = pos 0;
  };
  collectors = record {
    pipelines = record {
      enabled = false;
      interval_seconds = pos 0;
      include_child_pipelines = false;
      histogram_buckets = [];
      max_pipelines_per_ref = pos 0;
    };
    jobs = record {
      enabled = false;
      interval_seconds = pos 0;
      histogram_buckets = [];
      include_runner_details = false;
    };
    merge_requests = record { enabled = false; interval_seconds = pos 0; histogram_buckets = [] };
    environments = record { enabled = false; interval_seconds = pos 0; exclude_stopped = false };
    test_reports = record { enabled = false; interval_seconds = pos 0; include_test_cases = false };
    dora = record { enabled = false; interval_seconds = pos 0; environment_tiers = [] };
    value_stream = off;
    code_review = off;
    repository = off;
    contributors = off;
  };
  defaults = record { output_sparse_status_metrics = false; refs = no_refs };
  projects = [];
  wildcards = [];
}

-- The flags of the `run` command that the configuration reads; each may come from the environment.
pub record Flags : Type 0 where
  pub config : String
  pub gitlab_url : String
  pub gitlab_token : String
  pub server_listen_address : String

-- `if v := cmd.String(flag); v != "" { field = v }`
abbrev pub flag_or : String → String → String
flag_or v old = if v == "" then old else v

pub override_flags : Flags → Config → Config
override_flags flags cfg = record cfg {
  gitlab = record cfg.gitlab {
    url = flag_or flags.gitlab_url cfg.gitlab.url;
    token = flag_or flags.gitlab_token cfg.gitlab.token;
  };
  server = record cfg.server {
    listen_address = flag_or flags.server_listen_address cfg.server.listen_address;
  };
}

pub require_fields : Config → Result Config
require_fields cfg =
    if cfg.gitlab.url == ""
    then err (new "gitlab URL is required (--gitlab-url or config file)" [])
    else if cfg.gitlab.token == ""
    then err (new "gitlab token is required (--gitlab-token or config file)" [])
    else ok cfg

configure_loaded : Flags → Result Config → Result Config
configure_loaded flags (err e) = err (wrap "loading config from %s: %w" (text flags.config ∷ []) e)
configure_loaded flags (ok cfg) = require_fields (override_flags flags (apply_defaults cfg))

module _ {Bytes : Type 0} (read_file : String → Result Bytes)
    (unmarshal : Bytes → Config → Result Config) (lookup_env : String → Option String)
    (validate : Config → Option Error) where
  load_validated : Config → Option Error → Result Config
  load_validated cfg (some e) = err (wrap "config validation failed: %w" [] e)
  load_validated cfg none = ok cfg

  load_parsed : Result Config → Result Config
  load_parsed (err e) = err (wrap "parsing config file: %w" [] e)
  load_parsed (ok cfg) =
      let cfg' = apply_env_overrides lookup_env cfg in load_validated cfg' (validate cfg')

  load_read : Result Bytes → Result Config
  load_read (err e) = err (wrap "reading config file: %w" [] e)
  load_read (ok contents) = load_parsed (unmarshal contents (apply_defaults zero_config))

  pub load : String → Result Config
  load path = load_read (read_file path)

  -- The `run` action up to the creation of the exporter.
  pub configure : Flags → Result Config
  configure flags =
      configure_loaded flags (if flags.config == "" then ok zero_config else load flags.config)
