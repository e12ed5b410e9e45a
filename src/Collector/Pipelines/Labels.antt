-- ===== src/Collector/Pipelines/Labels.antt =====
-- Every call of a run fits the metric it is made on.
use amazing_gitlab_exporter.Base.{
  ℕ, ◌≡◌, refl, String, Bool, true, false, not, Option, none, some, List, [], ◌∷◌, ◌==◌,
  comparable_string, Bool-cases, inl, inr, if◌then◌else◌, arith,
}
use amazing_gitlab_exporter.Base.Lists.{All, length}
use amazing_gitlab_exporter.Base.Int.{ℤ, pos, ◌<ℤ◌, ltb_ℤ}
use amazing_gitlab_exporter.Base.Errors.{Result, ok, err}
use amazing_gitlab_exporter.Collector.{
  whole, Op, observe, set, Call, IsLabelled, All-append, each-All,
}
use amazing_gitlab_exporter.Collector.Pipelines.{
  Metric, duration, queued_duration, status, child_duration, child_queued_duration, child_status,
  label_names, Pipeline, PipelineInfo, Bridge, PipelinesCollector, PipelinesApi, pipeline_kind,
  observed, coverage_calls, created_calls, record_pipeline, child_calls, record_child,
  record_bridges, collect_child_pipelines, record_reply, collect_pipeline, collect_listed,
  collect_project, run,
}

-- A status is only ever set to one, and a duration that is observed is positive.
abbrev pub IsMeaningful : {F : Type 0} → Metric → Op F → Type 0
IsMeaningful status op = op ≡ set (whole (pos 1))
IsMeaningful child_status op = op ≡ set (whole (pos 1))
IsMeaningful duration op = (d : ℤ) × (op ≡ observe (whole d)) × (pos 0 <ℤ d)
IsMeaningful queued_duration op = (d : ℤ) × (op ≡ observe (whole d)) × (pos 0 <ℤ d)
IsMeaningful child_duration op = (d : ℤ) × (op ≡ observe (whole d)) × (pos 0 <ℤ d)
IsMeaningful child_queued_duration op = (d : ℤ) × (op ≡ observe (whole d)) × (pos 0 <ℤ d)
IsMeaningful _ op = Unit

abbrev pub IsSound : {F : Type 0} → Call Metric F → Type 0
IsSound c = IsLabelled label_names c × IsMeaningful c.metric c.op

module _ (F : Type 0) where
  observed-IsSound :
      (metric : Metric) (labels : List String) (d : ℤ)
      → length labels ≡ length (label_names metric)
      → (pos 0 <ℤ d → IsMeaningful {F = F} metric (observe (whole d)))
      → All IsSound (observed {F = F} metric labels d)
  observed-IsSound metric labels d fits means = elim (Bool-cases (ltb_ℤ (pos 0) d)) [
    | inl positive ↦ rw positive ((fits, means (ground (arith, positive))), tt)
    | inr other ↦ rw other tt
  ]

module _ {F : Type 0} (scan : String → Option F) where
  coverage_calls-IsSound :
      (project ref kind : String) (cov : Option F)
      → All IsSound (coverage_calls scan (project ∷ ref ∷ kind ∷ []) cov)
  coverage_calls-IsSound project ref kind none = tt
  coverage_calls-IsSound project ref kind (some cov) = ((refl, tt), tt)

  created_calls-IsSound :
      (project ref kind : String) (t : Option ℤ)
      → All IsSound (created_calls scan (project ∷ ref ∷ kind ∷ []) t)
  created_calls-IsSound project ref kind none = tt
  created_calls-IsSound project ref kind (some t) = ((refl, tt), tt)

  if_set :
      (project ref kind coverage : String) (b : Bool)
      → All IsSound
          (if b then coverage_calls scan (project ∷ ref ∷ kind ∷ []) (scan coverage) else [])
  if_set project ref kind coverage true = coverage_calls-IsSound project ref kind (scan coverage)
  if_set project ref kind coverage false = tt

  record_pipeline-IsSound :
      (project : String) (p : Pipeline) → All IsSound (record_pipeline scan project p)
  unfolding record_pipeline
  record_pipeline-IsSound project p =
      let kind = pipeline_kind p in
      let long = project ∷ p.ref ∷ kind ∷ p.source ∷ [] in
      let full = project ∷ p.ref ∷ kind ∷ p.source ∷ p.status ∷ [] in
      All-append IsSound _ _
        (All-append IsSound _ _
          (All-append IsSound (observed duration full p.duration)
            (observed queued_duration long p.queued_duration)
            (observed-IsSound F duration full p.duration refl (λ h. (p.duration, refl, h)))
            (observed-IsSound F queued_duration long p.queued_duration refl
              (λ h. (p.queued_duration, refl, h))))
          (
            (refl, refl),
            ((refl, tt), if_set project p.ref kind p.coverage (not (p.coverage == ""))),
          ))
        ((refl, tt), created_calls-IsSound project p.ref kind p.created_at)

module _ {World F : Type 0} (api : PipelinesApi World) (scan : String → Option F)
    (sprint : ℕ → String) where
  child_calls-IsSound :
      (p r pp pr b dp_status : String) (times : ℤ × ℤ)
      → All IsSound (child_calls api scan sprint (p ∷ r ∷ pp ∷ pr ∷ b ∷ []) dp_status times)
  unfolding child_calls
  child_calls-IsSound p r pp pr b dp_status (d, q) =
      let labels = p ∷ r ∷ pp ∷ pr ∷ b ∷ [] in
      All-append IsSound _ _
        (All-append IsSound (observed child_duration labels d)
          (observed child_queued_duration labels q)
          (observed-IsSound F child_duration labels d refl (λ h. (d, refl, h)))
          (observed-IsSound F child_queued_duration labels q refl (λ h. (q, refl, h))))
        ((refl, refl), ((refl, tt), tt))

  record_child-IsSound :
      (project : String) (parent : Pipeline) (name : String) (dp : Option PipelineInfo) (w : World)
      → All IsSound (record_child api scan sprint project parent name dp w).0
  unfolding record_child
  record_child-IsSound project parent name none w = tt
  record_child-IsSound project parent name (some dp) w = child_calls-IsSound _ _ _ _ _ _ _

  record_bridges-IsSound :
      (project : String) (parent : Pipeline) (reply : Result (List Bridge)) (w : World)
      → All IsSound (record_bridges api scan sprint project parent reply w).0
  unfolding record_bridges
  record_bridges-IsSound project parent (err e) w = tt
  record_bridges-IsSound project parent (ok bridges) w =
      each-All IsSound _ (λ b. record_child-IsSound project parent b.name b.downstream_pipeline)
        bridges w

  record_reply-IsSound :
      (c : PipelinesCollector) (project : String) (reply : Result Pipeline) (w : World)
      → All IsSound (record_reply api scan sprint c project reply w).0
  unfolding record_reply collect_child_pipelines
  record_reply-IsSound c project (err e) w = tt
  record_reply-IsSound c project (ok p) w = elim (Bool-cases c.include_child_pipelines) [
    | inl on ↦ rw on (
        All-append IsSound _ _ (record_pipeline-IsSound scan project p)
          (record_bridges-IsSound project p _ _))
    | inr off ↦ rw off (record_pipeline-IsSound scan project p)
  ]

  collect_listed-IsSound :
      (c : PipelinesCollector) (project : String) (reply : Result (List PipelineInfo)) (w : World)
      → All IsSound (collect_listed api scan sprint c project reply w).0.0
  unfolding collect_listed collect_pipeline
  collect_listed-IsSound c project (err e) w = tt
  collect_listed-IsSound c project (ok infos) w =
      each-All IsSound _ (λ info w. record_reply-IsSound c project _ _) infos w

  -- Whatever GitLab answers, every call of a run of the pipelines collector has as many label values
  -- as its metric was made with, sets a status to nothing but one, and observes positive durations.
  pub run-IsSound : (c : PipelinesCollector) (w : World) → All IsSound (run api scan sprint c w).0.0
  unfolding run collect_project
  run-IsSound c w =
      each-All IsSound _ (λ project w. collect_listed-IsSound c project _ _) c.projects w
