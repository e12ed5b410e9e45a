-- ===== src/Collector/Jobs/Labels.antt =====
-- Every call of a run fits the metric it is made on.
use amazing_gitlab_exporter.Base.{◌≡◌, true}
use amazing_gitlab_exporter.Base.Int.{pos}
use amazing_gitlab_exporter.Collector.{float, whole, Op, observe, set, inc, Call, IsLabelled}
use amazing_gitlab_exporter.Collector.Jobs.{
  Metric, duration, queued_duration, status, run_count, artifact_size, label_names, JobFloats,
}

module _ {F : Type 0} (floats : JobFloats F) where
  -- A status is only ever set to one, a size to a number above zero, and a duration that is observed
  -- is above zero.
  abbrev pub IsMeaningful : Metric → Op F → Type 0
  IsMeaningful duration op = (d : F) × (op ≡ observe (float d)) × (floats.positive d ≡ true)
  IsMeaningful queued_duration op = (d : F) × (op ≡ observe (float d)) × (floats.positive d ≡ true)
  IsMeaningful status op = op ≡ set (whole (pos 1))
  IsMeaningful run_count op = op ≡ inc
  IsMeaningful artifact_size op =
      (size : F) × (op ≡ set (float size)) × (floats.positive size ≡ true)

  abbrev pub IsSound : Call Metric F → Type 0
  IsSound c = IsLabelled label_names c × IsMeaningful c.metric c.op
