-- ===== src/Config/Env.antt =====
-- internal/config/config.go: the environment overrides. The walk over the struct by reflection is
-- written out for `Config`, whose tagged fields are strings, bools and ints, in the walk's order.
use amazing_gitlab_exporter.Base.{
  String, Bool, true, false, ◌||◌, Option, none, some, ◌==◌, comparable_string, if◌then◌else◌,
}
use amazing_gitlab_exporter.Base.Int.{ℤ}
use amazing_gitlab_exporter.Base.Strconv.{atoi}
use amazing_gitlab_exporter.Config.{LogConfig, ServerConfig, RedisConfig, GitLabConfig, Config}

-- `strconv.ParseBool`
pub parse_bool : String → Option Bool
parse_bool s =
    if s == "1" || s == "t" || s == "T" || s == "true" || s == "TRUE" || s == "True"
    then some true
    else if s == "0" || s == "f" || s == "F" || s == "false" || s == "FALSE" || s == "False"
    then some false
    else none

-- `setFieldFromString` on a string, a bool and an int: what does not parse is ignored.
pub set_string : String → String → String
set_string old raw = raw

pub set_bool : Bool → String → Bool
set_bool old raw = elim (parse_bool raw) [ some b ↦ b | none ↦ old ]

pub set_int : ℤ → String → ℤ
set_int old raw = elim (atoi raw) [ some n ↦ n | none ↦ old ]

-- A tagged field is set if its variable is.
pub override : {A : Type 0} → (A → String → A) → Option String → A → A
override set none old = old
override set (some raw) old = set old raw

-- `os.LookupEnv`
module _ (lookup_env : String → Option String) where
  pub env_log : LogConfig → LogConfig
  env_log c = record {
    level = override set_string (lookup_env "AGE_LOG_LEVEL") c.level;
    format = override set_string (lookup_env "AGE_LOG_FORMAT") c.format;
  }

  pub env_server : ServerConfig → ServerConfig
  env_server c = record {
    listen_address = override set_string (lookup_env "AGE_LISTEN_ADDRESS") c.listen_address;
    enable_pprof = override set_bool (lookup_env "AGE_ENABLE_PPROF") c.enable_pprof;
    webhook = record {
      enabled = override set_bool (lookup_env "AGE_WEBHOOK_ENABLED") c.webhook.enabled;
      secret_token =
          override set_string (lookup_env "AGE_WEBHOOK_SECRET_TOKEN") c.webhook.secret_token;
    };
  }

  pub env_redis : RedisConfig → RedisConfig
  env_redis c = record {
    url = override set_string (lookup_env "AGE_REDIS_URL") c.url;
    pool_size = override set_int (lookup_env "AGE_REDIS_POOL_SIZE") c.pool_size;
    min_idle_conns = override set_int (lookup_env "AGE_REDIS_MIN_IDLE_CONNS") c.min_idle_conns;
  }

  pub env_gitlab : GitLabConfig → GitLabConfig
  env_gitlab c = record {
    url = override set_string (lookup_env "AGE_GITLAB_URL") c.url;
    token = override set_string (lookup_env "AGE_GITLAB_TOKEN") c.token;
    enable_tls_verify =
        override set_bool (lookup_env "AGE_GITLAB_ENABLE_TLS_VERIFY") c.enable_tls_verify;
    ca_cert_path = override set_string (lookup_env "AGE_GITLAB_CA_CERT_PATH") c.ca_cert_path;
    max_requests_per_second =
        override set_int (lookup_env "AGE_GITLAB_MAX_RPS") c.max_requests_per_second;
    burst_requests_per_second =
        override set_int (lookup_env "AGE_GITLAB_BURST_RPS") c.burst_requests_per_second;
    use_graphql = override set_bool (lookup_env "AGE_GITLAB_USE_GRAPHQL") c.use_graphql;
    graphql_page_size =
        override set_int (lookup_env "AGE_GITLAB_GRAPHQL_PAGE_SIZE") c.graphql_page_size;
    rest_page_size = override set_int (lookup_env "AGE_GITLAB_REST_PAGE_SIZE") c.rest_page_size;
  }

  unfoldable pub apply_env_overrides : Config → Config
  unfolding env_log env_server env_redis env_gitlab override set_string set_bool set_int
  apply_env_overrides cfg = record cfg {
    log = env_log cfg.log;
    server = env_server cfg.server;
    redis = env_redis cfg.redis;
    gitlab = env_gitlab cfg.gitlab;
  }
