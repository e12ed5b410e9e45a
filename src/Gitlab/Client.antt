-- ===== src/Gitlab/Client.antt =====
-- internal/gitlab/client.go. The client library and the JSON codec are parameters.
pub mod Creation
pub mod Requests
use amazing_gitlab_exporter.Base.{String, Bool, true, false, Option, none, some, [], if◌then◌else◌}
use amazing_gitlab_exporter.Base.Int.{ℤ}
use amazing_gitlab_exporter.Base.Errors.{Error, wrap, Result, ok, err}
use amazing_gitlab_exporter.Runtime.{Runtime}
use amazing_gitlab_exporter.Gitlab.RateLimiter.{RateLimiter, new_rate_limiter}
use amazing_gitlab_exporter.Gitlab.Api.{Response, Reply, failed, refused, answered}
use amazing_gitlab_exporter.Gitlab.Rest.{Session, rest_wait, note_response}
use amazing_gitlab_exporter.Gitlab.Tier.{DetectedFeatures}

pub record Client : Type 0 where
  pub rate_limiter : RateLimiter
  pub features : Option DetectedFeatures
  pub base_url : String
  pub token : String
  pub use_graphql : Bool

-- `goGitlab.NewClient` with a base URL is `create`: its error, if any.
unfoldable pub created : Option Error → Client → Result Client
created (some e) c = err (wrap "creating gitlab REST client: %w" [] e)
created none c = ok c

module _ (create : String → String → Option Error) where
  unfoldable pub new_client : String → String → ℤ → ℤ → Bool → Result Client
  new_client base_url token rps burst use_graphql = created (create token base_url) (record {
    rate_limiter = new_rate_limiter rps burst;
    features = none;
    base_url = base_url;
    token = token;
    use_graphql = use_graphql;
  })

pub set_features : Option DetectedFeatures → Client → Client
set_features features c = record c { features = features }

-- `DoREST`. `encode` is the error of marshalling the body (none without a body), `build` that of
-- `NewRequest`; a reply's value is its body, which `decode` reads if a result is wanted.
module _ (r : Runtime) (ceil_div : ℤ → ℤ → ℤ) {Body : Type 0} (encode build : Option Error)
    (send : r.World → Reply Body × r.World) (body_of : Response → Option Body)
    (decode : Option (Body → Option Error)) where
  pub decoded : Response → Option Body → Option (Body → Option Error) → Option Error → Option Error
  decoded response (some body) (some read) e = elim (read body) [
    | some decode_error ↦ some (wrap "decoding response: %w" [] decode_error)
    | none ↦ e
  ]
  decoded response none _ e = e
  decoded response (some body) none e = e

  pub do_rest_reply :
      Reply Body → Session r ceil_div → (Option Response × Option Error) × Session r ceil_div
  do_rest_reply (failed e) s = ((none, some (wrap "executing request: %w" [] e)), s)
  do_rest_reply (refused response e) s = (
    (some response, decoded response (body_of response) decode (some e)),
    note_response r ceil_div response s,
  )
  do_rest_reply (answered response body) s = (
    (some response, decoded response (some body) decode none),
    note_response r ceil_div response s,
  )

  pub do_rest_waited :
      Option Error
      → Option Error
      → Option Error
      → Session r ceil_div
      → (Option Response × Option Error) × Session r ceil_div
  do_rest_waited (some e) _ _ s = ((none, some (wrap "rate limiter wait: %w" [] e)), s)
  do_rest_waited none (some e) _ s = ((none, some (wrap "marshalling request body: %w" [] e)), s)
  do_rest_waited none none (some e) s = ((none, some (wrap "building request: %w" [] e)), s)
  do_rest_waited none none none s =
      let (reply, w) = send s.world in do_rest_reply reply (record s { world = w })

  pub do_rest : Session r ceil_div → (Option Response × Option Error) × Session r ceil_div
  do_rest s = let (waited, s') = rest_wait r ceil_div s in do_rest_waited waited encode build s'
