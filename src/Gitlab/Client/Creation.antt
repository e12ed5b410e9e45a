-- ===== src/Gitlab/Client/Creation.antt =====
-- A client starts with no features, and nothing but `SetFeatures` gives it some.
use amazing_gitlab_exporter.Base.{String, Bool, ◌≡◌, Option, none, some}
use amazing_gitlab_exporter.Base.Int.{ℤ}
use amazing_gitlab_exporter.Base.Errors.{Error, ok}
use amazing_gitlab_exporter.Gitlab.Client.{Client, created, new_client}

created-same : (o : Option Error) (c d : Client) → created o c ≡ ok d → c ≡ d
unfolding created
created-same (some e) c d h = absurd (cc h)
created-same none c d h = cc h

module _ (create : String → String → Option Error) where
  pub new_client-features :
      (base_url token : String) (rps burst : ℤ) (use_graphql : Bool) (c : Client)
      → new_client create base_url token rps burst use_graphql ≡ ok c
      → c.features ≡ none
  unfolding new_client
  new_client-features base_url token rps burst use_graphql c h =
      cc (created-same (create token base_url) _ c h)
