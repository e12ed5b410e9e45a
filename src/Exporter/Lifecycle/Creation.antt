-- ===== src/Exporter/Lifecycle/Creation.antt =====
-- What a created exporter runs.
use amazing_gitlab_exporter.Base.{
  ℕ, String, Bool, true, false, ◌&&◌, ◌≡◌, refl, ap, ◌∙◌, Option, none, some, List, Option-cases,
  inl, inr,
}
use amazing_gitlab_exporter.Base.Lists.{length}
use amazing_gitlab_exporter.Base.Errors.{Error, Result, ok, err}
use amazing_gitlab_exporter.Gitlab.Api.{Reply}
use amazing_gitlab_exporter.Gitlab.Client.{Client}
use amazing_gitlab_exporter.Gitlab.Client.Creation.{new_client-features}
use amazing_gitlab_exporter.Config.{Config}
use amazing_gitlab_exporter.Exporter.Discovery.{ListProjectsOptions, discover_projects}
use amazing_gitlab_exporter.Exporter.Registration.{empty_setup, register_collectors}
use amazing_gitlab_exporter.Exporter.Registration.Enabled.{contains, registered_exact}
use amazing_gitlab_exporter.Exporter.Lifecycle.{
  Exporter, StoreKind, assemble, with_store, with_client, new_exporter,
}

and_false : (b : Bool) → (b && false) ≡ false
and_false true = refl
and_false false = refl

-- What holds of every exporter that a client is made into.
abbrev MadeWith : Client → Config → Exporter → Type 0
MadeWith client cfg x =
    (x.client ≡ client)
    × (x.projects_tracked ≡ length x.projects)
    × (x.setup ≡ register_collectors cfg.collectors client.features empty_setup)

assemble-MadeWith :
    (cfg : Config) (client : Client) (store : StoreKind) (ps : Result (List String)) (x : Exporter)
    → assemble cfg client store ps ≡ ok x
    → MadeWith client cfg x
unfolding assemble
assemble-MadeWith cfg client store (err e) x h = absurd (cc h)
assemble-MadeWith cfg client store (ok ps) x h = (cc h, cc h, cc h)

fst-of-some :
    {W : Type 0} {a b : Result Exporter} {u v : W}
    → ◌≡◌ {A = Option (Result Exporter × W)} (some (a, u)) (some (b, v))
    → a ≡ b
fst-of-some h = cc

module _ {W : Type 0} (create : String → String → Option Error)
    (connect_redis : String → Option Error)
    (list_projects : ListProjectsOptions → W → Reply (List String) × W) where
  with_store-MadeWith :
      (fuel : ℕ) (cfg : Config) (client : Client) (store : Result StoreKind) (w w' : W)
      (x : Exporter)
      → with_store create connect_redis list_projects fuel cfg client store w ≡ some (ok x, w')
      → MadeWith client cfg x
  unfolding with_store
  with_store-MadeWith fuel cfg client (err e) w w' x h = absurd (cc (fst-of-some h))
  with_store-MadeWith fuel cfg client (ok store) w w' x h =
      elim (Option-cases (discover_projects list_projects fuel cfg w)) [
        | inl out ↦ absurd (cc (rw (out, with_store) at h))
        | inr (y, e) ↦
            assemble-MadeWith cfg client store y.0 x (fst-of-some (rw (e, with_store) at h))
      ]

  with_client-MadeWith :
      (fuel : ℕ) (cfg : Config) (made : Result Client) (w w' : W) (x : Exporter)
      → with_client create connect_redis list_projects fuel cfg made w ≡ some (ok x, w')
      → (client : Client) × (made ≡ ok client) × MadeWith client cfg x
  unfolding with_client
  with_client-MadeWith fuel cfg (err e) w w' x h = absurd (cc (fst-of-some h))
  with_client-MadeWith fuel cfg (ok client) w w' x h =
      (client, refl, with_store-MadeWith fuel cfg client _ w w' x h)

  -- An exporter that is created has a client with no features and the number of its projects in its
  -- gauge. None of the three collectors that need a licence is registered, whatever the configuration
  -- says, and the pipelines collector is exactly if it is enabled.
  pub created_without_features :
      (fuel : ℕ) (cfg : Config) (w w' : W) (x : Exporter)
      → new_exporter create connect_redis list_projects fuel cfg w ≡ some (ok x, w')
      → (x.client.features ≡ none)
        × (x.projects_tracked ≡ length x.projects)
        × (contains x.setup.collectors "dora" ≡ false)
        × (contains x.setup.collectors "value_stream" ≡ false)
        × (contains x.setup.collectors "code_review" ≡ false)
        × (contains x.setup.collectors "pipelines" ≡ cfg.collectors.pipelines.enabled)
  unfolding new_exporter
  created_without_features fuel cfg w w' x h =
      let (client, made, (same, tracked, setup)) = with_client-MadeWith fuel cfg _ w w' x h in
      let bare = new_client-features create _ _ _ _ _ client made in
      let r = registered_exact cfg.collectors none in
      (
        ap (λ (c : Client). c.features) same ∙ bare,
        tracked,
        rw (setup, bare) (r.5 ∙ and_false cfg.collectors.dora.enabled),
        rw (setup, bare) (r.6 ∙ and_false cfg.collectors.value_stream.enabled),
        rw (setup, bare) (r.7 ∙ and_false cfg.collectors.code_review.enabled),
        rw (setup, bare) r.0,
      )
