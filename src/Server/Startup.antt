-- ===== src/Server/Startup.antt =====
-- internal/server/server.go `NewServer` and `Start`: the patterns that are registered with the mux of
-- net/http, and what `Start` returns for what it first receives.
use amazing_gitlab_exporter.Base.{String, Option, none, some, List, [], ◌∷◌, if◌then◌else◌}
use amazing_gitlab_exporter.Base.Errors.{Error, new, wrap}
use amazing_gitlab_exporter.Config.{Config}

-- Who answers a pattern: the handler of the metrics library, those of the server, those of net/http/pprof.
pub data Route : Type 0 where
  metrics handle_health handle_ready handle_config : Route
  pprof_index pprof_cmdline pprof_profile pprof_symbol pprof_trace : Route

abbrev pub pprof_routes : List (String × Route)
pprof_routes =
    ("/debug/pprof/", pprof_index)
    ∷ ("/debug/pprof/cmdline", pprof_cmdline)
    ∷ ("/debug/pprof/profile", pprof_profile)
    ∷ ("/debug/pprof/symbol", pprof_symbol)
    ∷ ("/debug/pprof/trace", pprof_trace)
    ∷ []

pub routes : Config → List (String × Route)
routes cfg =
    ("/metrics", metrics)
    ∷ ("/health", handle_health)
    ∷ ("/ready", handle_ready)
    ∷ ("/config", handle_config)
    ∷ (if cfg.server.enable_pprof then pprof_routes else [])

-- What `Start` receives first: an error of `ListenAndServe`, the closing of the channel, which a server
-- that was shut down leaves, or the timer of 100 milliseconds.
pub data Signal : Type 0 where
  listen_failed : Error → Signal
  closed elapsed : Signal

-- A closed channel gives a nil error, which is wrapped all the same.
pub start : Signal → Option Error
start (listen_failed e) = some (wrap "server failed to start: %w" [] e)
start closed = some (new "server failed to start: %w" [])
start elapsed = none
