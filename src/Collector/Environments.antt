-- ===== src/Collector/Environments.antt =====
-- internal/collector/environments.go. The client library's calls and the order of floating-point
-- numbers are parameters; locks and log lines are left out.
pub mod Stopped
mod Tests
use amazing_gitlab_exporter.Base.{
  ℕ, String, Bool, true, false, not, ◌&&◌, Option, none, some, List, [], ◌∷◌, ◌++◌, ◌==◌,
  comparable_nat, comparable_string, if◌then◌else◌,
}
use amazing_gitlab_exporter.Base.Int.{ℤ, pos}
use amazing_gitlab_exporter.Base.Errors.{Error, wrap, text, Result, ok, err}
use amazing_gitlab_exporter.Collector.{whole, float, Op, observe, set, inc, Call, each}

pub data Metric : Type 0 where
  deploy_duration deploy_status deploy_count behind_commits behind_duration info : Metric

-- The label names that `NewEnvironmentsCollector` makes each vector with.
abbrev pub label_names : Metric → List String
label_names deploy_duration = "project" ∷ "environment" ∷ []
label_names deploy_status = "project" ∷ "environment" ∷ "status" ∷ []
label_names deploy_count = "project" ∷ "environment" ∷ []
label_names behind_commits = "project" ∷ "environment" ∷ []
label_names behind_duration = "project" ∷ "environment" ∷ []
label_names info = "project" ∷ "environment" ∷ "tier" ∷ []

pub record Environment : Type 0 where
  pub name : String
  pub state : String
  pub tier : String

-- Of a deployment's job, the id and the duration.
pub record Deployment (F : Type 0) : Type 0 where
  pub status : String
  pub deployable_id : ℕ
  pub deployable_duration : F

pub record EnvironmentsCollector : Type 0 where
  pub exclude_stopped : Bool
  pub projects : List String

pub set_projects : EnvironmentsCollector → List String → EnvironmentsCollector
set_projects c projects = record c { projects = projects }

pub environment_tier : Environment → String
environment_tier env = if not (env.tier == "") then env.tier else "unknown"

-- The listings, with the page size asked for.
pub record EnvironmentsApi (World F : Type 0) : Type 0 where
  pub list_environments : String → ℕ → World → Result (List Environment) × World
  pub list_project_deployments : String → String → ℕ → World → Result (List (Deployment F)) × World

module _ {World F : Type 0} (api : EnvironmentsApi World F) (positive : F → Bool) where
  abbrev pub call : Metric → List String → Op F → Call Metric F
  call metric labels op = record { metric = metric; labels = labels; op = op }

  pub record_deployments : String → String → List (Deployment F) → List (Call Metric F)
  record_deployments project env_name [] = []
  record_deployments project env_name (d ∷ ds) =
      let rest = record_deployments project env_name ds in
      call deploy_status (project ∷ env_name ∷ d.status ∷ []) (set (whole (pos 1)))
      ∷ call deploy_count (project ∷ env_name ∷ []) inc
      ∷ (if not (d.deployable_id == 0) && positive d.deployable_duration
          then call deploy_duration (project ∷ env_name ∷ [])
              (observe (float d.deployable_duration))
            ∷ rest
          else rest)

  pub deployments_reply : String → String → Result (List (Deployment F)) → List (Call Metric F)
  deployments_reply project env_name (err e) = []
  deployments_reply project env_name (ok ds) = record_deployments project env_name ds

  pub collect_deployments : String → Environment → World → List (Call Metric F) × World
  collect_deployments project env w =
      let (reply, w1) = api.list_project_deployments project env.name 10 w in
      (deployments_reply project env.name reply, w1)

  pub collect_environment :
      EnvironmentsCollector → String → Environment → World → List (Call Metric F) × World
  collect_environment c project env w =
      let (calls, w1) = collect_deployments project env w in
      if c.exclude_stopped && env.state == "stopped" then ([], w) else (
        call info (project ∷ env.name ∷ environment_tier env ∷ []) (set (whole (pos 1))) ∷ calls,
        w1,
      )

  pub collect_listed :
      EnvironmentsCollector
      → String
      → Result (List Environment)
      → World
      → (List (Call Metric F) × Option Error) × World
  collect_listed c project (err e) w =
      (([], some (wrap "list environments for %s: %w" (text project ∷ []) e)), w)
  collect_listed c project (ok envs) w =
      let (calls, w1) = each (collect_environment c project) envs w in ((calls, none), w1)

  pub collect_project :
      EnvironmentsCollector → String → World → (List (Call Metric F) × Option Error) × World
  collect_project c project w =
      let (reply, w1) = api.list_environments project 50 w in collect_listed c project reply w1

  -- `Run`: the error of a project is logged, the next project follows, and the result is nil.
  abbrev pub run_project : EnvironmentsCollector → String → World → List (Call Metric F) × World
  run_project c project w = let ((calls, e), w1) = collect_project c project w in (calls, w1)

  pub run : EnvironmentsCollector → World → (List (Call Metric F) × Option Error) × World
  run c w = let (calls, w1) = each (run_project c) c.projects w in ((calls, none), w1)
