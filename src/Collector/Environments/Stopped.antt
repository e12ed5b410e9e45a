-- ===== src/Collector/Environments/Stopped.antt =====
-- Which calls a run of the environments collector makes, and for which environments.
use amazing_gitlab_exporter.Base.{
  ◌≡◌, refl, String, Bool, true, not, ◌&&◌, List, [], ◌∷◌, ◌==◌, comparable_nat, comparable_string,
  Bool-cases, inl, inr, if◌then◌else◌, arith,
}
use amazing_gitlab_exporter.Base.Lists.{All}
use amazing_gitlab_exporter.Base.Int.{pos}
use amazing_gitlab_exporter.Base.Errors.{Result, ok, err}
use amazing_gitlab_exporter.Collector.{
  float, whole, Op, observe, set, inc, Call, IsLabelled, each, each-All,
}
use amazing_gitlab_exporter.Collector.Environments.{
  Metric, deploy_duration, deploy_status, deploy_count, behind_commits, behind_duration, info,
  label_names, Environment, Deployment, EnvironmentsCollector, EnvironmentsApi, record_deployments,
  deployments_reply, collect_deployments, collect_environment, collect_listed, collect_project, run,
}

-- The listing without the stopped environments.
abbrev pub without_stopped : List Environment → List Environment
without_stopped [] = []
without_stopped (env ∷ envs) =
    let rest = without_stopped envs in if env.state == "stopped" then rest else env ∷ rest

module _ {World F : Type 0} (api : EnvironmentsApi World F) (positive : F → Bool) where
  -- What each metric is told: the two metrics of being behind are told nothing.
  abbrev pub IsMeaningful : Metric → Op F → Type 0
  IsMeaningful deploy_duration op = (d : F) × (op ≡ observe (float d)) × (positive d ≡ true)
  IsMeaningful deploy_status op = op ≡ set (whole (pos 1))
  IsMeaningful deploy_count op = op ≡ inc
  IsMeaningful behind_commits op = ⊥
  IsMeaningful behind_duration op = ⊥
  IsMeaningful info op = op ≡ set (whole (pos 1))

  abbrev pub IsSound : Call Metric F → Type 0
  IsSound c = IsLabelled label_names c × IsMeaningful c.metric c.op

  record_deployments-IsSound :
      (project env_name : String) (ds : List (Deployment F))
      → All IsSound (record_deployments api positive project env_name ds)
  unfolding record_deployments
  record_deployments-IsSound project env_name [] = tt
  record_deployments-IsSound project env_name (d ∷ ds) =
      let rest = record_deployments-IsSound project env_name ds in
      elim (Bool-cases (not (d.deployable_id == 0) && positive d.deployable_duration)) [
        | inl timed ↦ rw timed (
          (refl, refl),
          ((refl, refl), ((refl, (d.deployable_duration, refl, ground (arith, timed))), rest)),
        )
        | inr other ↦ rw other ((refl, refl), ((refl, refl), rest))
      ]

  deployments_reply-IsSound :
      (project env_name : String) (reply : Result (List (Deployment F)))
      → All IsSound (deployments_reply api positive project env_name reply)
  unfolding deployments_reply
  deployments_reply-IsSound project env_name (err e) = tt
  deployments_reply-IsSound project env_name (ok ds) =
      record_deployments-IsSound project env_name ds

  collect_environment-IsSound :
      (c : EnvironmentsCollector) (project : String) (env : Environment) (w : World)
      → All IsSound (collect_environment api positive c project env w).0
  unfolding collect_environment collect_deployments
  collect_environment-IsSound c project env w =
      elim (Bool-cases (c.exclude_stopped && env.state == "stopped")) [
        | inl skip ↦ rw skip tt
        | inr keep ↦ rw keep ((refl, refl), deployments_reply-IsSound project env.name _)
      ]

  collect_listed-IsSound :
      (c : EnvironmentsCollector) (project : String) (reply : Result (List Environment)) (w : World)
      → All IsSound (collect_listed api positive c project reply w).0.0
  unfolding collect_listed
  collect_listed-IsSound c project (err e) w = tt
  collect_listed-IsSound c project (ok envs) w =
      each-All IsSound _ (collect_environment-IsSound c project) envs w

  -- Whatever GitLab answers, every call of a run of the environments collector has as many label values
  -- as its metric was made with, sets a status or an info to one, and observes positive durations; and
  -- the metrics of commits and time behind are never set.
  pub behind_never_set :
      (c : EnvironmentsCollector) (w : World) → All IsSound (run api positive c w).0.0
  unfolding run collect_project
  behind_never_set c w =
      each-All IsSound _ (λ project w. collect_listed-IsSound c project _ _) c.projects w

  collect_environment-stopped :
      (c : EnvironmentsCollector) (project : String) (env : Environment) (w : World)
      → c.exclude_stopped ≡ true
      → (env.state == "stopped") ≡ true
      → collect_environment api positive c project env w ≡ ([], w)
  unfolding collect_environment
  collect_environment-stopped c project env w h stopped = rw (h, stopped) refl

  -- If stopped environments are to be excluded, they have no effect: a listing makes the calls that it
  -- would make without them, and leaves the world as it would.
  pub stopped_excluded :
      (c : EnvironmentsCollector) (project : String) (envs : List Environment) (w : World)
      → c.exclude_stopped ≡ true
      → each (collect_environment api positive c project) envs w
        ≡ each (collect_environment api positive c project) (without_stopped envs) w
  unfolding each
  stopped_excluded c project [] w h = refl
  stopped_excluded c project (env ∷ envs) w h = elim (Bool-cases (env.state == "stopped")) [
    | inl stopped ↦
        rw (stopped, collect_environment-stopped c project env w h stopped)
          (stopped_excluded c project envs w h)
    | inr kept ↦
        rw
          (
            kept,
            stopped_excluded c project envs (collect_environment api positive c project env w).1 h,
          )
          refl
  ]
