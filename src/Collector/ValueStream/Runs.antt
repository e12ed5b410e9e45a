-- ===== src/Collector/ValueStream/Runs.antt =====
-- internal/collector/value_stream.go: the totals after a run.
use mathlib.Core.List.{append-nil}
use amazing_gitlab_exporter.Base.{
  refl, sym, String, Option, List, [], ◌∷◌, ◌||◌, ◌==◌, comparable_nat, Bool-cases, inl, inr,
}
use amazing_gitlab_exporter.Base.Lists.{All}
use amazing_gitlab_exporter.Base.Int.{ℤ}
use amazing_gitlab_exporter.Base.Errors.{Result, ok, err}
use amazing_gitlab_exporter.Gitlab.Api.{Reply, failed, refused, answered}
use amazing_gitlab_exporter.Gitlab.Tier.{DetectedFeatures, has_feature}
use amazing_gitlab_exporter.Collector.Observations.{Host, Progress, HasLabels}
use amazing_gitlab_exporter.Collector.Observations.Invariants.{run_gated-keeps}
use amazing_gitlab_exporter.Collector.ValueStream.Totals.{
  Extends, Extends-refl, Extends-trans, HasTotals, record_total-HasTotals, collect-HasLabels,
}
use amazing_gitlab_exporter.Collector.ValueStream.{
  label_names, VsaStageResponse, VsaStageMedianResponse, VsaValueStreamResponse, ValueStreamLists,
  ValueStreamCollector, Analytics, no_lists, stage_name, streams_path, stages_path, median_path,
  record_median, send_median, visit_stages, visit_listed, send_stages, visit_streams, send_streams,
  visit, collect, run,
}

module _ {World Request Time F : Type 0} (host : Host World Time F)
    (api : Analytics World Request F) (zero_float : F) (add : F → F → F) where
  record_median-Extends :
      (project stage : String) (reply : Reply (VsaStageMedianResponse F))
      → (s : Progress (ValueStreamLists F) × F)
      → Extends zero_float add project s (record_median add project stage reply s)
  unfolding Extends record_median
  record_median-Extends project stage (failed e) s = ([], sym (append-nil _), refl, refl, refl)
  record_median-Extends project stage (refused response e) s =
      ([], sym (append-nil _), refl, refl, refl)
  record_median-Extends project stage (answered response median) s =
      ((stage, median.value) ∷ [], refl, refl, refl, refl)

  send_median-Extends :
      (project stage : String) (made : Result Request × World)
      → (s : Progress (ValueStreamLists F) × F)
      → Extends zero_float add project s
          (send_median host api zero_float add project stage made s).0
  unfolding Extends send_median
  send_median-Extends project stage (err e, w) s = ([], sym (append-nil _), refl, refl, refl)
  send_median-Extends project stage (ok request, w) s =
      record_median-Extends project stage (api.median.send request w).0 s

  visit_stages-Extends :
      (project : String) (stream : ℤ) (stages : List VsaStageResponse)
      → (s : Progress (ValueStreamLists F) × F) → (w : World)
      → Extends zero_float add project s
          (visit_stages host api zero_float add project stream stages s w).0
  unfolding visit_stages
  visit_stages-Extends project stream [] s w = Extends-refl zero_float add project s
  visit_stages-Extends project stream (stage ∷ stages) s w =
      let made = api.median.new_request (median_path project stream stage.id) [] w in
      let next = send_median host api zero_float add project (stage_name stage) made s in
      Extends-trans zero_float add project s next.0 _
        (send_median-Extends project (stage_name stage) made s)
        (visit_stages-Extends project stream stages next.0 next.1)

  visit_listed-HasTotals :
      (project : String) (stream : ℤ) (reply : Reply (List VsaStageResponse))
      → (p : Progress (ValueStreamLists F)) → (w : World) → HasTotals zero_float add p.lists
      → HasTotals zero_float add
          (visit_listed host api zero_float add project stream reply p w).0.lists
  unfolding visit_listed
  visit_listed-HasTotals project stream (failed e) p w h = h
  visit_listed-HasTotals project stream (refused response e) p w h = h
  visit_listed-HasTotals project stream (answered response stages) p w h =
      record_total-HasTotals zero_float add project p _ h
        (visit_stages-Extends project stream stages (p, zero_float) w)

  send_stages-HasTotals :
      (project : String) (stream : ℤ) (made : Result Request × World)
      → (p : Progress (ValueStreamLists F)) → HasTotals zero_float add p.lists
      → HasTotals zero_float add (send_stages host api zero_float add project stream made p).0.lists
  unfolding send_stages
  send_stages-HasTotals project stream (err e, w) p h = h
  send_stages-HasTotals project stream (ok request, w) p h =
      let (reply, w1) = api.stages.send request w in
      visit_listed-HasTotals project stream reply p w1 h

  visit_streams-HasTotals :
      (project : String) (reply : Reply (List VsaValueStreamResponse))
      → (p : Progress (ValueStreamLists F)) → (w : World) → HasTotals zero_float add p.lists
      → HasTotals zero_float add (visit_streams host api zero_float add project reply p w).0.lists
  unfolding visit_streams
  visit_streams-HasTotals project (failed e) p w h = h
  visit_streams-HasTotals project (refused response e) p w h =
      elim (Bool-cases (response.status_code == 403 || response.status_code == 404)) [
        | inl b ↦ rw b h
        | inr b ↦ rw b h
      ]
  visit_streams-HasTotals project (answered response []) p w h = h
  visit_streams-HasTotals project (answered response (stream ∷ streams)) p w h =
      send_stages-HasTotals project stream.id
        (api.stages.new_request (stages_path project stream.id) [] w) p h

  visit-HasTotals :
      (project : String) (p : Progress (ValueStreamLists F)) (w : World)
      → HasTotals zero_float add p.lists
      → HasTotals zero_float add (visit host api zero_float add project p w).0.lists
  unfolding visit send_streams
  visit-HasTotals project p w h = go (api.streams.new_request (streams_path project) [] w)
    where
      go :
          (made : Result Request × World)
          → HasTotals zero_float add (send_streams host api zero_float add project made p).0.lists
      go (err e, w1) = h
      go (ok request, w1) =
          let (reply, w2) = api.streams.send request w1 in
          visit_streams-HasTotals project reply p w2 h

  -- Take a collector whose cycle times and lead times are both, project by project, the sums of the
  -- durations of the stages that it lists for the project, as those of a new collector are. After a
  -- run, however it ends and whichever medians could not be fetched, they are so again, and every
  -- sample that `Collect` then sends has as many labels as its descriptor.
  pub run-HasTotals :
      (features : Option DetectedFeatures)
      → (c : ValueStreamCollector F) → (w : World) → HasTotals zero_float add c.observations.lists
      → let after = (run host api zero_float add features c w).0.1 in
        HasTotals zero_float add after.observations.lists
        × All (HasLabels label_names) (collect after)
  unfolding run
  run-HasTotals features c w h =
      let kept =
        run_gated-keeps host (has_feature (λ f. f.has_value_stream) features)
          (HasTotals zero_float add) no_lists (visit host api zero_float add) ([], refl, refl, refl)
          visit-HasTotals c w h in
      (kept, collect-HasLabels zero_float add _ kept)
