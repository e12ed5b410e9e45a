-- ===== src/Collector/Pipelines/Counts.antt =====
-- What a run adds to the counter of pipelines.
use amazing_gitlab_exporter.Base.{
  ℕ, suc, ◌+◌, ◌≡◌, ◌⊎◌, refl, String, Bool, true, false, not, ◌&&◌, Option, none, some, List, [],
  ◌∷◌, ◌++◌, ◌==◌, comparable_string, comparable_list, inl, inr, if◌then◌else◌, arith,
}
use amazing_gitlab_exporter.Base.Int.{ℤ}
use amazing_gitlab_exporter.Base.Errors.{Error, Result, ok, err}
use amazing_gitlab_exporter.Collector.{Call, each}
use amazing_gitlab_exporter.Collector.Pipelines.{
  Metric, duration, queued_duration, run_count, Pipeline, PipelineInfo, PipelinesCollector,
  PipelinesApi, pipeline_kind, observed, coverage_calls, created_calls, record_pipeline,
  record_reply, collect_pipeline, collect_listed,
}

abbrev pub is_run_count : Metric → Bool
is_run_count run_count = true
is_run_count _ = false

module _ {F : Type 0} where
  -- The increments of the run counter with the given label values.
  abbrev pub increments : List String → List (Call Metric F) → ℕ
  increments labels [] = 0
  increments labels (c ∷ cs) =
      let rest = increments labels cs in
      if is_run_count c.metric && (c.labels == labels) then suc rest else rest

  increments-append :
      (labels : List String) (xs ys : List (Call Metric F))
      → increments labels (xs ++ ys) ≡ increments labels xs + increments labels ys
  increments-append labels [] ys = omega arith
  increments-append labels (x ∷ xs) ys = ground (arith, increments-append labels xs ys)

-- The label values of a pipeline's run counter.
abbrev pub run_labels : String → Pipeline → List String
run_labels project p = project ∷ p.ref ∷ pipeline_kind p ∷ p.source ∷ []

module _ {World : Type 0} (api : PipelinesApi World) where
  -- The listed pipelines whose details GitLab answers, asked for one after the other.
  abbrev pub answered_pipelines : String → List PipelineInfo → World → List Pipeline
  answered_pipelines project [] w = []
  answered_pipelines project (info ∷ infos) w =
      let (reply, w1) = api.get_pipeline project info.id w in
      let rest = answered_pipelines project infos w1 in
      elim reply [ ok p ↦ p ∷ rest | err e ↦ rest ]

-- How many of the pipelines have the label values.
abbrev pub with_labels : String → List String → List Pipeline → ℕ
with_labels project labels [] = 0
with_labels project labels (p ∷ ps) =
    let rest = with_labels project labels ps in
    if run_labels project p == labels then suc rest else rest

Result-cases : {A : Type 0} (x : Result A) → ((a : A) × (x ≡ ok a)) ⊎ ((e : Error) × (x ≡ err e))
Result-cases (ok a) = inl (a, refl)
Result-cases (err e) = inr (e, refl)

module _ {World F : Type 0} (api : PipelinesApi World) (scan : String → Option F)
    (sprint : ℕ → String) where
  observed-increments :
      (metric : Metric) (labels ls : List String) (d : ℤ)
      → is_run_count metric ≡ false
      → increments labels (observed {F = F} metric ls d) ≡ 0
  observed-increments metric labels ls d other = ground (arith, other)

  coverage-increments :
      (labels ls : List String) (b : Bool) (cov : Option F)
      → increments labels (if b then coverage_calls scan ls cov else []) ≡ 0
  coverage-increments labels ls true none = refl
  coverage-increments labels ls true (some cov) = refl
  coverage-increments labels ls false cov = refl

  created-increments :
      (labels ls : List String) (t : Option ℤ) → increments labels (created_calls scan ls t) ≡ 0
  created-increments labels ls none = refl
  created-increments labels ls (some t) = refl

  record_pipeline-increments :
      (project : String) (p : Pipeline) (labels : List String)
      → increments labels (record_pipeline scan project p)
        ≡ (if run_labels project p == labels then 1 else 0)
  unfolding record_pipeline
  record_pipeline-increments project p labels =
      rw
        (
          increments-append labels,
          increments-append labels,
          increments-append labels,
          observed-increments duration labels
              (project ∷ p.ref ∷ pipeline_kind p ∷ p.source ∷ p.status ∷ []) p.duration refl,
          observed-increments queued_duration labels (run_labels project p) p.queued_duration refl,
          coverage-increments labels (project ∷ p.ref ∷ pipeline_kind p ∷ [])
              (not (p.coverage == "")) (scan p.coverage),
          created-increments labels (project ∷ p.ref ∷ pipeline_kind p ∷ []) p.created_at,
        )
        (ground arith)

  record_reply-ok :
      (c : PipelinesCollector) (project : String) (p : Pipeline) (w : World)
      → c.include_child_pipelines ≡ false
      → record_reply api scan sprint c project (ok p) w ≡ (record_pipeline scan project p, w)
  unfolding record_reply
  record_reply-ok c project p w alone = rw alone refl

  record_reply-err :
      (c : PipelinesCollector) (project : String) (e : Error) (w : World)
      → record_reply api scan sprint c project (err e) w ≡ ([], w)
  unfolding record_reply
  record_reply-err c project e w = refl

  collect_pipelines-increments :
      (c : PipelinesCollector) (project : String) (infos : List PipelineInfo) (w : World)
      (labels : List String)
      → c.include_child_pipelines ≡ false
      → increments labels (each (collect_pipeline api scan sprint c project) infos w).0
        ≡ with_labels project labels (answered_pipelines api project infos w)
  unfolding each collect_pipeline
  collect_pipelines-increments c project [] w labels alone = refl
  collect_pipelines-increments c project (info ∷ infos) w labels alone =
      let w1 = (api.get_pipeline project info.id w).1 in
      let rest = collect_pipelines-increments c project infos w1 labels alone in
      elim (Result-cases (api.get_pipeline project info.id w).0) [
        | inl (p, answer) ↦
            rw
              (
                answer,
                record_reply-ok c project p w1 alone,
                increments-append labels,
                record_pipeline-increments project p labels,
                rest,
              )
              (ground arith)
        | inr (e, failure) ↦
            rw (failure, record_reply-err c project e w1, rest) (ground (arith, failure))
      ]

  -- Without child pipelines, a listing adds to the run counter of each label set the number of its
  -- pipelines with these labels whose details GitLab answers, and a pipeline that cannot be fetched
  -- does not stop the others.
  pub counts_answered :
      (c : PipelinesCollector) (project : String) (infos : List PipelineInfo) (w : World)
      (labels : List String)
      → c.include_child_pipelines ≡ false
      → let ((calls, e), w1) = collect_listed api scan sprint c project (ok infos) w in
        (increments labels calls
          ≡ with_labels project labels (answered_pipelines api project infos w))
        × (e ≡ none)
  unfolding collect_listed
  counts_answered c project infos w labels alone =
      (collect_pipelines-increments c project infos w labels alone, refl)
