-- ===== src/Exporter/Lifecycle.antt =====
-- internal/exporter/exporter.go `NewExporter`. Connecting to Redis, creating the client and listing
-- projects are parameters.
pub mod Creation
mod Tests
use amazing_gitlab_exporter.Base.{
  ℕ, String, Bool, true, false, Option, none, some, List, [], ◌∷◌, ◌==◌, comparable_string,
  if◌then◌else◌,
}
use amazing_gitlab_exporter.Base.Lists.{length}
use amazing_gitlab_exporter.Base.Errors.{Error, wrap, Result, ok, err}
use amazing_gitlab_exporter.Gitlab.Api.{Reply}
use amazing_gitlab_exporter.Gitlab.Client.{Client, new_client}
use amazing_gitlab_exporter.Config.{Config}
use amazing_gitlab_exporter.Exporter.Discovery.{ListProjectsOptions, discover_projects}
use amazing_gitlab_exporter.Exporter.Registration.{Setup, empty_setup, register_collectors}

pub data StoreKind : Type 0 where
  redis memory : StoreKind

pub record Exporter : Type 0 where
  pub config : Config
  pub client : Client
  pub store : StoreKind
  pub projects_tracked : ℕ
  pub projects : List String
  pub setup : Setup

pub assemble : Config → Client → StoreKind → Result (List String) → Result Exporter
assemble cfg client store (err e) = err (wrap "discovering projects: %w" [] e)
assemble cfg client store (ok projects) = ok (record {
  config = cfg;
  client = client;
  store = store;
  projects_tracked = length projects;
  projects = projects;
  setup = register_collectors cfg.collectors client.features empty_setup;
})

module _ {W : Type 0} (create : String → String → Option Error)
    (connect_redis : String → Option Error)
    (list_projects : ListProjectsOptions → W → Reply (List String) × W) where
  -- `store.NewRedisStore` if a URL is configured.
  open_store : Config → Result StoreKind
  open_store cfg = if cfg.redis.url == "" then ok memory else elim (connect_redis cfg.redis.url) [
    | none ↦ ok redis
    | some e ↦ err (wrap "creating redis store: %w" [] e)
  ]

  pub with_store : ℕ → Config → Client → Result StoreKind → W → Option (Result Exporter × W)
  with_store fuel cfg client (err e) w = some (err e, w)
  with_store fuel cfg client (ok store) w = elim (discover_projects list_projects fuel cfg w) [
    | none ↦ none
    | some (projects, w') ↦ some (assemble cfg client store projects, w')
  ]

  pub with_client : ℕ → Config → Result Client → W → Option (Result Exporter × W)
  with_client fuel cfg (err e) w = some (err (wrap "creating gitlab client: %w" [] e), w)
  with_client fuel cfg (ok client) w = with_store fuel cfg client (open_store cfg) w

  -- The fuel bounds the pages of one wildcard; `none` means that it ran out.
  pub new_exporter : ℕ → Config → W → Option (Result Exporter × W)
  new_exporter fuel cfg w =
      with_client fuel cfg
        (new_client create cfg.gitlab.url cfg.gitlab.token cfg.gitlab.max_requests_per_second
          cfg.gitlab.burst_requests_per_second cfg.gitlab.use_graphql)
        w
