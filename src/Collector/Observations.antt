-- ===== src/Collector/Observations.antt =====
-- internal/collector: the part that the contributors, repository, DORA, value stream, code review and
-- merge requests collectors have in common. Each keeps the observations of its last complete run,
-- which `Collect` sends and `Run` replaces at its end. `errCount` is a natural number here.
pub mod Replacement
pub mod Invariants
pub mod Labels
mod Tests
use amazing_gitlab_exporter.Base.{
  ℕ, ◌≡◌, String, Bool, Option, none, some, List, [], ◌∷◌, ◌++◌, if◌then◌else◌,
}
use amazing_gitlab_exporter.Base.Lists.{length}
use amazing_gitlab_exporter.Base.Int.{pos}
use amazing_gitlab_exporter.Base.Errors.{Arg, Error, Result, ok, err}
use amazing_gitlab_exporter.Gitlab.Api.{Reply}
use amazing_gitlab_exporter.Collector.{Value, whole, float}
use amazing_gitlab_exporter.Collector.Histograms.{Histogram}

pub record LabeledGauge (F : Type 0) : Type 0 where
  pub labels : List String
  pub value : Value F

-- What `Run` collects in the structs of the source: the lists, how long it took, and the errors.
pub record Observations (Lists F : Type 0) : Type 0 where
  pub lists : Lists
  pub scrape_duration : F
  pub scrape_errors : ℕ

pub record Observer (Options Lists F : Type 0) : Type 0 where
  pub options : Options
  pub projects : List String
  pub observations : Observations Lists F

pub set_projects :
    {Options Lists F : Type 0} → Observer Options Lists F → List String → Observer Options Lists F
set_projects c projects = record c { projects = projects }

-- The context, the clock, and `end.Sub(start).Seconds()` for a start and an end.
pub record Host (World Time F : Type 0) : Type 0 where
  pub ctx_err : World → Option Error
  pub now : World → Time
  pub seconds_between : Time → Time → F

-- The path of a request: the format of `fmt.Sprintf` and its arguments.
pub record UrlPath : Type 0 where
  pub format : String
  pub args : List Arg

-- `rest.NewRequest` for a path and its query, and `rest.Do` of the request, which decodes the body.
pub record Endpoint (World Request A : Type 0) : Type 0 where
  pub new_request : UrlPath → List (String × String) → World → Result Request × World
  pub send : Request → World → Reply A × World

-- The local variables of `Run`: `obs` and `errCount`.
pub record Progress (Lists : Type 0) : Type 0 where
  pub lists : Lists
  pub errors : ℕ

abbrev pub initial : {Lists : Type 0} → Lists → Progress Lists
initial empty = record { lists = empty; errors = 0 }

module _ {World Time F Lists : Type 0} (host : Host World Time F) where
  -- The loop over the projects, which a done context ends with its error.
  pub sweep :
      (String → Progress Lists → World → Progress Lists × World)
      → List String
      → Progress Lists
      → World
      → Result (Progress Lists) × World
  sweep visit [] progress w = (ok progress, w)
  sweep visit (project ∷ projects) progress w =
      let (progress1, w1) = visit project progress w in
      let rest = sweep visit projects progress1 w1 in
      elim (host.ctx_err w) [ none ↦ rest | some e ↦ (err e, w) ]

  -- The end of `Run`: only a loop that has come to its end replaces the observations.
  pub replace :
      {Options : Type 0}
      → Observer Options Lists F
      → World
      → Result (Progress Lists) × World
      → (Option Error × Observer Options Lists F) × World
  replace c start (ok progress, w) = (
    (
      none,
      record c {
        observations = record {
          lists = progress.lists;
          scrape_duration = host.seconds_between (host.now start) (host.now w);
          scrape_errors = progress.errors;
        };
      },
    ),
    w,
  )
  replace c start (err e, w) = ((some e, c), w)

  -- `Run`, for what it does with one project.
  pub run_sweep :
      {Options : Type 0}
      → Lists
      → (String → Progress Lists → World → Progress Lists × World)
      → Observer Options Lists F
      → World
      → (Option Error × Observer Options Lists F) × World
  run_sweep empty visit c w = replace c w (sweep visit c.projects (initial empty) w)

  -- `Run` behind a feature of the GitLab instance: without it the observations are reset.
  unfoldable pub run_gated :
      {Options : Type 0}
      → Bool
      → Lists
      → (String → Progress Lists → World → Progress Lists × World)
      → Observer Options Lists F
      → World
      → (Option Error × Observer Options Lists F) × World
  run_gated available empty visit c w = if available then run_sweep empty visit c w else (
    (
      none,
      record c {
        observations = record {
          lists = empty;
          scrape_duration = host.seconds_between (host.now w) (host.now w);
          scrape_errors = 0;
        };
      },
    ),
    w,
  )

-- The type of a constant metric.
pub data Kind : Type 0 where
  gauge counter : Kind

-- The arguments of `MustNewConstMetric`, which panics where the number of labels is not that of the
-- descriptor.
pub record Sample (M F : Type 0) : Type 0 where
  pub metric : M
  pub kind : Kind
  pub value : Value F
  pub labels : List String

abbrev pub HasLabels : {M F : Type 0} → (M → List String) → Sample M F → Type 0
HasLabels label_names s = length s.labels ≡ length (label_names s.metric)

-- `for _, g := range gauges { ch <- MustNewConstMetric(...) }`
pub send_gauges : {M F : Type 0} → M → Kind → List (LabeledGauge F) → List (Sample M F)
send_gauges metric kind [] = []
send_gauges metric kind (g ∷ gs) =
    record { metric = metric; kind = kind; value = g.value; labels = g.labels }
    ∷ send_gauges metric kind gs

-- The two metrics about the run itself, sent last.
pub send_scrape : {M Lists F : Type 0} → M → M → String → Observations Lists F → List (Sample M F)
send_scrape duration errors name o =
    record { metric = duration; kind = gauge; value = float o.scrape_duration; labels = name ∷ [] }
    ∷ record {
      metric = errors;
      kind = counter;
      value = whole (pos o.scrape_errors);
      labels = name ∷ [];
    }
    ∷ []

-- What a collector sends: a constant metric, or the histogram of a group of values.
pub data Sent (M F : Type 0) : Type 0 where
  constant : Sample M F → Sent M F
  histogram : M → Histogram F → Sent M F

pub send_constants : {M F : Type 0} → List (Sample M F) → List (Sent M F)
send_constants [] = []
send_constants (s ∷ ss) = constant s ∷ send_constants ss

pub send_histograms : {M F : Type 0} → M → List (Histogram F) → List (Sent M F)
send_histograms metric [] = []
send_histograms metric (h ∷ hs) = histogram metric h ∷ send_histograms metric hs
