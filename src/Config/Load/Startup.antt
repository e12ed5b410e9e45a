-- ===== src/Config/Load/Startup.antt =====
-- Which settings a started exporter has: what the file, the environment and the flags decide.
use amazing_gitlab_exporter.Base.{
  String, false, ◌≡◌, refl, sym, ap, inl, inr, Option, none, some, ◌==◌, comparable_string,
  Bool-cases, if◌then◌else◌,
}
use amazing_gitlab_exporter.Base.Int.{pos}
use amazing_gitlab_exporter.Base.Errors.{Error, Result, ok, err, ok-injective}
use amazing_gitlab_exporter.Config.{Config}
use amazing_gitlab_exporter.Config.Defaults.{apply_defaults}
use amazing_gitlab_exporter.Config.Env.{apply_env_overrides}
use amazing_gitlab_exporter.Config.Load.{
  Flags, zero_config, load_validated, load_parsed, load_read, load, flag_or, override_flags,
  require_fields, configure_loaded, configure,
}

require_fields-ok :
    (c cfg : Config)
    → require_fields c ≡ ok cfg
    → (cfg ≡ c) × ((c.gitlab.url == "") ≡ false) × ((c.gitlab.token == "") ≡ false)
unfolding require_fields
require_fields-ok c cfg h = elim (Bool-cases (c.gitlab.url == "")) [
  | inl e ↦ absurd (cc (rw e at h))
  | inr u ↦ elim (Bool-cases (c.gitlab.token == "")) [
    | inl e ↦ absurd (cc (rw (u, e) at h))
    | inr t ↦ (sym (ok-injective (rw (u, t) at h)), u, t)
  ]
]

configure_loaded-ok :
    (flags : Flags) (x : Result Config) (cfg : Config)
    → configure_loaded flags x ≡ ok cfg
    → (c : Config) × (x ≡ ok c)
      × (cfg ≡ override_flags flags (apply_defaults c))
      × ((cfg.gitlab.url == "") ≡ false)
      × ((cfg.gitlab.token == "") ≡ false)
unfolding configure_loaded
configure_loaded-ok flags (err e) cfg h = absurd (cc h)
configure_loaded-ok flags (ok c) cfg h =
    let (same, url, token) = require_fields-ok _ cfg h in
    (c, refl, same, rw same url, rw same token)

module _ {Bytes : Type 0} (read_file : String → Result Bytes)
    (unmarshal : Bytes → Config → Result Config) (lookup_env : String → Option String)
    (validate : Config → Option Error) where
  -- What the run command starts from: no configuration file, or the loaded one.
  abbrev source : Flags → Result Config
  source flags =
      if flags.config == ""
      then ok zero_config
      else load read_file unmarshal lookup_env validate flags.config

  load_validated-ok :
      (c : Config) (x : Option Error) (cfg : Config)
      → load_validated read_file unmarshal lookup_env validate c x ≡ ok cfg
      → (c ≡ cfg) × (x ≡ none)
  unfolding load_validated
  load_validated-ok c none cfg h = (ok-injective h, refl)
  load_validated-ok c (some e) cfg h = absurd (cc h)

  load_parsed-ok :
      (x : Result Config) (cfg : Config)
      → load_parsed read_file unmarshal lookup_env validate x ≡ ok cfg
      → (c : Config) × (x ≡ ok c) × (cfg ≡ apply_env_overrides lookup_env c) × (validate cfg ≡ none)
  unfolding load_parsed
  load_parsed-ok (err e) cfg h = absurd (cc h)
  load_parsed-ok (ok c) cfg h =
      let (same, valid) = load_validated-ok _ _ cfg h in (c, refl, sym same, rw (← same) valid)

  load_read-ok :
      (x : Result Bytes) (cfg : Config)
      → load_read read_file unmarshal lookup_env validate x ≡ ok cfg
      → (contents : Bytes) × (c : Config) × (x ≡ ok contents)
        × (unmarshal contents (apply_defaults zero_config) ≡ ok c)
        × (cfg ≡ apply_env_overrides lookup_env c)
        × (validate cfg ≡ none)
  unfolding load_read
  load_read-ok (err e) cfg h = absurd (cc h)
  load_read-ok (ok contents) cfg h =
      let (c, decoded, same, valid) = load_parsed-ok _ cfg h in
      (contents, c, refl, decoded, same, valid)

  -- A configuration that loads was read, decoded over the defaults, overridden from the environment
  -- after that, and validated last.
  pub load_ok :
      (path : String) (cfg : Config)
      → load read_file unmarshal lookup_env validate path ≡ ok cfg
      → (contents : Bytes) × (c : Config) × (read_file path ≡ ok contents)
        × (unmarshal contents (apply_defaults zero_config) ≡ ok c)
        × (cfg ≡ apply_env_overrides lookup_env c)
        × (validate cfg ≡ none)
  unfolding load
  load_ok path cfg h = load_read-ok (read_file path) cfg h

  -- Whatever the file and the environment say, a configuration that the run command accepts has the
  -- default limit of requests, log settings, settings of the pipelines, jobs, merge requests and DORA
  -- collectors, and filter of tags, and the default URL and address unless a flag gives them.
  pub configure_resets :
      (flags : Flags) (cfg : Config)
      → configure read_file unmarshal lookup_env validate flags ≡ ok cfg
      → let fresh = apply_defaults zero_config in
        (cfg.gitlab.url ≡ flag_or flags.gitlab_url "https://gitlab.com")
        × (cfg.server.listen_address ≡ flag_or flags.server_listen_address ":8080")
        × (cfg.gitlab.max_requests_per_second ≡ pos 10)
        × (cfg.log ≡ fresh.log)
        × (cfg.collectors.pipelines ≡ fresh.collectors.pipelines)
        × (cfg.collectors.jobs ≡ fresh.collectors.jobs)
        × (cfg.collectors.merge_requests ≡ fresh.collectors.merge_requests)
        × (cfg.collectors.dora ≡ fresh.collectors.dora)
        × (cfg.defaults.refs.tags ≡ fresh.defaults.refs.tags)
  unfolding configure override_flags apply_defaults
  configure_resets flags cfg h =
      let (c, _, e, _, _) = configure_loaded-ok flags (source flags) cfg h in
      (
        ap (λ (x : Config). x.gitlab.url) e,
        ap (λ (x : Config). x.server.listen_address) e,
        ap (λ (x : Config). x.gitlab.max_requests_per_second) e,
        ap (λ (x : Config). x.log) e,
        ap (λ (x : Config). x.collectors.pipelines) e,
        ap (λ (x : Config). x.collectors.jobs) e,
        ap (λ (x : Config). x.collectors.merge_requests) e,
        ap (λ (x : Config). x.collectors.dora) e,
        ap (λ (x : Config). x.defaults.refs.tags) e,
      )

  -- A configuration that the run command accepts has the loaded projects and wildcards, the loaded
  -- Redis and webhook settings, and the flag's token or else the loaded one; its URL and token are not
  -- empty.
  pub configure_keeps :
      (flags : Flags) (cfg : Config)
      → configure read_file unmarshal lookup_env validate flags ≡ ok cfg
      → (c : Config) × (source flags ≡ ok c)
        × (cfg.projects ≡ c.projects)
        × (cfg.wildcards ≡ c.wildcards)
        × (cfg.redis ≡ c.redis)
        × (cfg.server.webhook ≡ c.server.webhook)
        × (cfg.gitlab.token ≡ flag_or flags.gitlab_token c.gitlab.token)
        × ((cfg.gitlab.url == "") ≡ false)
        × ((cfg.gitlab.token == "") ≡ false)
  unfolding configure override_flags apply_defaults
  configure_keeps flags cfg h =
      let (c, loaded, e, url, token) = configure_loaded-ok flags (source flags) cfg h in
      (
        c,
        loaded,
        ap (λ (x : Config). x.projects) e,
        ap (λ (x : Config). x.wildcards) e,
        ap (λ (x : Config). x.redis) e,
        ap (λ (x : Config). x.server.webhook) e,
        ap (λ (x : Config). x.gitlab.token) e,
        url,
        token,
      )
