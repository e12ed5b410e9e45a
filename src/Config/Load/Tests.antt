-- ===== src/Config/Load/Tests.antt =====
-- A configuration file that sets a few fields.
use amazing_gitlab_exporter.Base.{String, ◌≡◌, refl, Option, none, comparable_string}
use amazing_gitlab_exporter.Base.Int.{pos}
use amazing_gitlab_exporter.Base.Errors.{Error, Result, ok}
use amazing_gitlab_exporter.Config.{Config}
use amazing_gitlab_exporter.Config.Defaults.{apply_defaults}
use amazing_gitlab_exporter.Config.Env.{apply_env_overrides}
use amazing_gitlab_exporter.Config.Load.{
  Flags, zero_config, override_flags, require_fields, configure_loaded, load_validated, load_parsed,
  load_read, load, configure,
}
use amazing_gitlab_exporter.Config.Load.Startup.{configure_resets}

-- The file's bytes are a token, which the decoder stores.
abbrev read_file : String → Result String
read_file path = ok "glpat-1"

abbrev unmarshal : String → Config → Result Config
unmarshal contents cfg = ok (record cfg {
  gitlab = record cfg.gitlab {
    url = "https://git.example.org";
    token = contents;
    max_requests_per_second = pos 1;
  };
})

abbrev no_env : String → Option String
no_env key = none

abbrev valid : Config → Option Error
valid cfg = none

abbrev flags : Flags
flags = record {
  config = "age.yml";
  gitlab_url = "";
  gitlab_token = "";
  server_listen_address = "";
}

-- The file over the defaults, and then no environment.
abbrev loaded : Config
loaded = apply_env_overrides no_env (record (apply_defaults zero_config) {
  gitlab = record (apply_defaults zero_config).gitlab {
    url = "https://git.example.org";
    token = "glpat-1";
    max_requests_per_second = pos 1;
  };
})

-- What the exporter runs with.
abbrev started : Config
started = override_flags flags (apply_defaults loaded)

configure_resets_example :
    let fresh = apply_defaults zero_config in
    (started.gitlab.url ≡ "https://gitlab.com")
    × (started.server.listen_address ≡ ":8080")
    × (started.gitlab.max_requests_per_second ≡ pos 10)
    × (started.log ≡ fresh.log)
    × (started.collectors.pipelines ≡ fresh.collectors.pipelines)
    × (started.collectors.jobs ≡ fresh.collectors.jobs)
    × (started.collectors.merge_requests ≡ fresh.collectors.merge_requests)
    × (started.collectors.dora ≡ fresh.collectors.dora)
    × (started.defaults.refs.tags ≡ fresh.defaults.refs.tags)
unfolding configure configure_loaded require_fields override_flags load load_read load_parsed
    load_validated apply_defaults apply_env_overrides
configure_resets_example = configure_resets read_file unmarshal no_env valid flags started refl
