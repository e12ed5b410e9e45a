-- ===== src/Lib.antt =====
-- amazing-gitlab-exporter: a Prometheus exporter for GitLab. At start it reads its configuration,
-- creates a client of the GitLab API, discovers the projects to track, and registers a collector and
-- a periodic task for each kind of data; then it serves `/metrics`, `/health`, `/ready` and `/config`
-- until it is stopped.
--
-- The parts, and the files that model them:
--
-- - internal/gitlab/ratelimiter.go: Gitlab/RateLimiter. The token bucket of golang.org/x/time/rate and
--   the clock are the parameter `Runtime`; `UpdateFromHeaders` is `update_from_headers` and its parts,
--   and `Wait` is `wait`. A time is a number of nanoseconds of Unix time. `UpdateFromHeaders` may read
--   the clock twice, and the model has a reading for each.
-- - internal/gitlab/rest.go, client.go: Gitlab/Rest and Gitlab/Client. Every call of the client library
--   is a parameter that takes the outside world and returns a `Reply` (Gitlab/Api) and the next world;
--   a `Session` is the limiter and that world. The methods for one object share `get_one`, the
--   listings share `list_all`.
-- - internal/gitlab/graphql.go: Gitlab/Graphql, with the query of the library as a parameter.
-- - internal/gitlab/tier_detector.go: Gitlab/Tier.
-- - internal/config and the `run` command of cmd/amazing-gitlab-exporter/main.go: Config, with the
--   defaults, the environment and the order of `Load` and `configure` in its child modules.
-- - internal/exporter/exporter.go: Exporter, as the discovery of projects, the registration of
--   collectors, and the creation of the exporter.
-- - internal/server: Server/Webhook, Server/Handlers and Server/Startup.
-- - internal/scheduler: Scheduler/Queue (the channel and the goroutine of `Start` take turns, as a
--   sequence of steps), Scheduler/Task, and Scheduler/Goroutines, where a scheduler with one goroutine
--   for each task moves by a step relation, and their context ends by the one that the program gives to
--   `Start` or by `Stop`.
-- - internal/store/memory.go, redis.go: Store/Memory and Store/Redis. The Redis server is a parameter that
--   answers GET and SET.
-- - internal/collector/pipelines.go, jobs.go, environments.go, test_reports.go: Collector/Pipelines,
--   Collector/Jobs, Collector/Environments and Collector/TestReports, as the calls that a run makes on
--   the metrics.
-- - internal/collector/merge_requests.go, code_review.go, value_stream.go, dora.go, repository.go and
--   contributors.go: Collector/MergeRequests, Collector/CodeReview, Collector/ValueStream,
--   Collector/Dora, Collector/Repository and Collector/Contributors. These keep observations that a run
--   replaces at its end; the loop over the projects, the end of a run and the sending of samples are
--   theirs in common and stand in Collector/Observations, for observations of any type. What the two
--   collectors of merge requests list is in Collector/Listing, and their counting maps in
--   Collector/Tally.
-- - internal/collector/registry.go: Collector/Registry.
-- - internal/collector/merge_requests.go `emitHistograms`: Collector/Histograms.
--
-- Base holds what the models share: tests, lists, signed integers with the wrap-around of an int64,
-- Go's errors, the values of a float64, maps as association lists, and strconv.Atoi and strconv.FormatInt.
--
-- Loops that follow page numbers run on fuel. A listing needs one round for each page that the server
-- has, and so does the discovery of a wildcard's projects.
--
-- Printing a number of seconds runs on fuel above the number, which is more than its digits.
--
-- Not modelled: `Exporter.Run`, which calls the parts one after the other, the struct tags that
-- the validator of the configuration reads, the command line, and what the Prometheus client
-- library does with the calls on it. Log lines are left out, and so are locks, which make each
-- operation one step. The observations of a run are read and replaced as a whole.
pub mod Base
pub mod Runtime
pub mod Gitlab
pub mod Config
pub mod Exporter
pub mod Server
pub mod Scheduler
pub mod Store
pub mod Collector
