-- ===== src/Collector/Pipelines.antt =====
-- internal/collector/pipelines.go. The client library's calls, `fmt.Sscanf` of a coverage and
-- `fmt.Sprintf("%d", n)` are parameters; `World` is what the calls change. Locks and log lines are left
-- out: a run is the only writer of the collector's metrics.
pub mod Labels
pub mod Counts
mod Tests
use amazing_gitlab_exporter.Base.{
  ℕ, String, Bool, true, false, not, ◌||◌, Option, none, some, List, [], ◌∷◌, ◌++◌, ◌==◌,
  comparable_string, comparable_nat, if◌then◌else◌,
}
use amazing_gitlab_exporter.Base.Int.{ℤ, pos, ltb_ℤ}
use amazing_gitlab_exporter.Base.Errors.{Error, wrap, text, Result, ok, err}
use amazing_gitlab_exporter.Collector.{Value, whole, float, Op, observe, set, inc, Call, each}

pub data Metric : Type 0 where
  duration queued_duration status run_count coverage id created_ts : Metric
  child_duration child_status child_run_count child_queued_duration : Metric

-- The label names that `NewPipelinesCollector` makes each vector with.
abbrev pub label_names : Metric → List String
label_names duration = "project" ∷ "ref" ∷ "kind" ∷ "source" ∷ "status" ∷ []
label_names queued_duration = "project" ∷ "ref" ∷ "kind" ∷ "source" ∷ []
label_names status = "project" ∷ "ref" ∷ "kind" ∷ "source" ∷ "status" ∷ []
label_names run_count = "project" ∷ "ref" ∷ "kind" ∷ "source" ∷ []
label_names coverage = "project" ∷ "ref" ∷ "kind" ∷ []
label_names id = "project" ∷ "ref" ∷ "kind" ∷ []
label_names created_ts = "project" ∷ "ref" ∷ "kind" ∷ []
label_names child_duration =
    "project" ∷ "ref" ∷ "parent_project" ∷ "parent_ref" ∷ "bridge_name" ∷ []
label_names child_status =
    "project" ∷ "ref" ∷ "parent_project" ∷ "parent_ref" ∷ "bridge_name" ∷ "status" ∷ []
label_names child_run_count =
    "project" ∷ "ref" ∷ "parent_project" ∷ "parent_ref" ∷ "bridge_name" ∷ []
label_names child_queued_duration =
    "project" ∷ "ref" ∷ "parent_project" ∷ "parent_ref" ∷ "bridge_name" ∷ []

-- The fields of `*gitlab.Pipeline` that the collector reads; `created_at` in seconds of Unix time.
pub record Pipeline : Type 0 where
  pub id : ℕ
  pub ref : String
  pub source : String
  pub status : String
  pub duration : ℤ
  pub queued_duration : ℤ
  pub coverage : String
  pub created_at : Option ℤ

pub record PipelineInfo : Type 0 where
  pub id : ℕ
  pub project_id : ℕ
  pub ref : String
  pub status : String

pub record Bridge : Type 0 where
  pub name : String
  pub downstream_pipeline : Option PipelineInfo

-- The collector's part of its configuration and its list of projects.
pub record PipelinesCollector : Type 0 where
  pub max_pipelines_per_ref : ℤ
  pub include_child_pipelines : Bool
  pub projects : List String

pub set_projects : PipelinesCollector → List String → PipelinesCollector
set_projects c projects = record c { projects = projects }

pub pipeline_kind : Pipeline → String
pipeline_kind p =
    if p.source == "parent_pipeline"
    then "child"
    else if p.source == "trigger" || p.source == "pipeline"
    then "trigger"
    else if p.source == "merge_request_event"
    then "merge_request"
    else if p.source == "schedule"
    then "schedule"
    else "branch"

module _ {F : Type 0} where
  abbrev pub call : Metric → List String → Op F → Call Metric F
  call metric labels op = record { metric = metric; labels = labels; op = op }

  -- A duration is observed if it is positive.
  abbrev pub observed : Metric → List String → ℤ → List (Call Metric F)
  observed metric labels value =
      if ltb_ℤ (pos 0) value then call metric labels (observe (whole value)) ∷ [] else []

module _ {F : Type 0} (scan : String → Option F) where
  abbrev pub coverage_calls : List String → Option F → List (Call Metric F)
  coverage_calls labels none = []
  coverage_calls labels (some cov) = call coverage labels (set (float cov)) ∷ []

  abbrev pub created_calls : List String → Option ℤ → List (Call Metric F)
  created_calls labels none = []
  created_calls labels (some t) = call created_ts labels (set (whole t)) ∷ []

  pub record_pipeline : String → Pipeline → List (Call Metric F)
  record_pipeline project p =
      let kind = pipeline_kind p in
      observed duration (project ∷ p.ref ∷ kind ∷ p.source ∷ p.status ∷ []) p.duration
      ++ observed queued_duration (project ∷ p.ref ∷ kind ∷ p.source ∷ []) p.queued_duration
      ++ call status (project ∷ p.ref ∷ kind ∷ p.source ∷ p.status ∷ []) (set (whole (pos 1)))
        ∷ call run_count (project ∷ p.ref ∷ kind ∷ p.source ∷ []) inc
        ∷ (if not (p.coverage == "")
            then coverage_calls (project ∷ p.ref ∷ kind ∷ []) (scan p.coverage)
            else [])
      ++ call id (project ∷ p.ref ∷ kind ∷ []) (set (whole (pos p.id)))
        ∷ created_calls (project ∷ p.ref ∷ kind ∷ []) p.created_at

-- The calls of the client library; an answer has a value, and all else is an error.
pub record PipelinesApi (World : Type 0) : Type 0 where
  pub list_project_pipelines : String → ℤ → World → Result (List PipelineInfo) × World
  pub get_pipeline : String → ℕ → World → Result Pipeline × World
  pub list_pipeline_bridges : String → ℕ → World → Result (List Bridge) × World

module _ {World F : Type 0} (api : PipelinesApi World) (scan : String → Option F)
    (sprint : ℕ → String) where
  abbrev pub durations : Result Pipeline → ℤ × ℤ
  durations (ok p) = (p.duration, p.queued_duration)
  durations (err e) = (pos 0, pos 0)

  -- The durations of a child, fetched if its project is known.
  pub child_durations : String → ℕ → World → (ℤ × ℤ) × World
  child_durations child_project child w =
      if not (child_project == "")
      then (let (reply, w1) = api.get_pipeline child_project child w in (durations reply, w1))
      else ((pos 0, pos 0), w)

  pub child_calls : List String → String → ℤ × ℤ → List (Call Metric F)
  child_calls labels dp_status (d, q) =
      observed child_duration labels d
      ++ observed child_queued_duration labels q
      ++ call child_status (labels ++ dp_status ∷ []) (set (whole (pos 1)))
        ∷ call child_run_count labels inc
        ∷ []

  pub record_child :
      String → Pipeline → String → Option PipelineInfo → World → List (Call Metric F) × World
  record_child project parent bridge_name none w = ([], w)
  record_child project parent bridge_name (some dp) w =
      let child_project = if not (dp.project_id == 0) then sprint dp.project_id else "" in
      let (times, w1) = child_durations child_project dp.id w in
      (
        child_calls (child_project ∷ dp.ref ∷ project ∷ parent.ref ∷ bridge_name ∷ []) dp.status
            times,
        w1,
      )

  pub record_bridges :
      String → Pipeline → Result (List Bridge) → World → List (Call Metric F) × World
  record_bridges project parent (err e) w = ([], w)
  record_bridges project parent (ok bridges) w =
      each (λ b. record_child project parent b.name b.downstream_pipeline) bridges w

  pub collect_child_pipelines : String → Pipeline → World → List (Call Metric F) × World
  collect_child_pipelines project parent w =
      let (reply, w1) = api.list_pipeline_bridges project parent.id w in
      record_bridges project parent reply w1

  pub record_reply :
      PipelinesCollector → String → Result Pipeline → World → List (Call Metric F) × World
  record_reply c project (err e) w = ([], w)
  record_reply c project (ok p) w =
      let (children, w1) = collect_child_pipelines project p w in
      let calls = record_pipeline scan project p in
      if c.include_child_pipelines then (calls ++ children, w1) else (calls, w)

  pub collect_pipeline :
      PipelinesCollector → String → PipelineInfo → World → List (Call Metric F) × World
  collect_pipeline c project info w =
      let (reply, w1) = api.get_pipeline project info.id w in record_reply c project reply w1

  pub collect_listed :
      PipelinesCollector
      → String
      → Result (List PipelineInfo)
      → World
      → (List (Call Metric F) × Option Error) × World
  collect_listed c project (err e) w =
      (([], some (wrap "list pipelines for %s: %w" (text project ∷ []) e)), w)
  collect_listed c project (ok infos) w =
      let (calls, w1) = each (collect_pipeline c project) infos w in ((calls, none), w1)

  pub collect_project :
      PipelinesCollector → String → World → (List (Call Metric F) × Option Error) × World
  collect_project c project w =
      let (reply, w1) = api.list_project_pipelines project c.max_pipelines_per_ref w in
      collect_listed c project reply w1

  -- `Run`: the error of a project is logged, the next project follows, and the result is nil.
  abbrev pub run_project : PipelinesCollector → String → World → List (Call Metric F) × World
  run_project c project w = let ((calls, e), w1) = collect_project c project w in (calls, w1)

  pub run : PipelinesCollector → World → (List (Call Metric F) × Option Error) × World
  run c w = let (calls, w1) = each (run_project c) c.projects w in ((calls, none), w1)
