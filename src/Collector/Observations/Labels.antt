-- ===== src/Collector/Observations/Labels.antt =====
-- internal/collector: the numbers of labels of the samples that are sent.
use amazing_gitlab_exporter.Base.{ℕ, ◌≡◌, sym, String, List, [], ◌∷◌}
use amazing_gitlab_exporter.Base.Lists.{All, length}
use amazing_gitlab_exporter.Collector.Observations.{
  Observations, LabeledGauge, Kind, send_gauges, send_scrape, HasLabels,
}

-- Every gauge of the list has `n` labels.
abbrev pub Labelled : {F : Type 0} → ℕ → List (LabeledGauge F) → Type 0
Labelled n gauges = All (λ g. length g.labels ≡ n) gauges

pub send_gauges-HasLabels :
    {M F : Type 0}
    → (label_names : M → List String) → (metric : M) → (kind : Kind)
    → (gauges : List (LabeledGauge F)) → Labelled (length (label_names metric)) gauges
    → All (HasLabels label_names) (send_gauges metric kind gauges)
unfolding send_gauges
send_gauges-HasLabels label_names metric kind [] h = tt
send_gauges-HasLabels label_names metric kind (g ∷ gs) (h, hs) =
    (h, send_gauges-HasLabels label_names metric kind gs hs)

pub send_scrape-HasLabels :
    {M Lists F : Type 0}
    → (label_names : M → List String) → (duration errors : M) → (name : String)
    → (o : Observations Lists F) → length (label_names duration) ≡ 1
    → length (label_names errors) ≡ 1
    → All (HasLabels label_names) (send_scrape duration errors name o)
unfolding send_scrape
send_scrape-HasLabels label_names duration errors name o h1 h2 = (sym h1, (sym h2, tt))
