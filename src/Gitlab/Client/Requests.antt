-- ===== src/Gitlab/Client/Requests.antt =====
-- `DoREST` feeds the headers of every response back, refused or not, and only those.
use amazing_gitlab_exporter.Base.{◌≡◌, refl, Option, none, some}
use amazing_gitlab_exporter.Base.Int.{ℤ}
use amazing_gitlab_exporter.Base.Errors.{Error}
use amazing_gitlab_exporter.Runtime.{Runtime}
use amazing_gitlab_exporter.Gitlab.RateLimiter.{update_from_headers}
use amazing_gitlab_exporter.Gitlab.Api.{Response, Reply, failed, refused, answered}
use amazing_gitlab_exporter.Gitlab.Rest.{Session, rest_wait, note_response}
use amazing_gitlab_exporter.Gitlab.Client.{do_rest_reply, do_rest_waited, do_rest}

module _ (r : Runtime) (ceil_div : ℤ → ℤ → ℤ) {Body : Type 0} (encode build : Option Error)
    (send : r.World → Reply Body × r.World) (body_of : Response → Option Body)
    (decode : Option (Body → Option Error)) where
  -- How the limiter after a call follows from the response that it returns, if any.
  abbrev Noted : Session r ceil_div → (Option Response × Option Error) × Session r ceil_div → Type 0
  Noted s x =
      ((x.0.0 ≡ none) → x.1.limiter ≡ s.limiter)
      × ((response : Response)
          → x.0.0 ≡ some response
          → x.1.limiter
            ≡ update_from_headers ceil_div (r.now x.1.world) (r.later x.1.world) response.headers
                s.limiter)

  reply-Noted :
      (reply : Reply Body) (s : Session r ceil_div)
      → Noted s (do_rest_reply r ceil_div encode build send body_of decode reply s)
  unfolding do_rest_reply note_response
  reply-Noted (failed e) s = (λ h. refl, λ response h. absurd (cc h))
  reply-Noted (refused response e) s = (λ h. absurd (cc h), λ other h. cc h)
  reply-Noted (answered response body) s = (λ h. absurd (cc h), λ other h. cc h)

  waited-Noted :
      (waited e b : Option Error) (s : Session r ceil_div)
      → Noted s (do_rest_waited r ceil_div encode build send body_of decode waited e b s)
  unfolding do_rest_waited
  waited-Noted (some e) _ _ s = (λ h. refl, λ response h. absurd (cc h))
  waited-Noted none (some e) _ s = (λ h. refl, λ response h. absurd (cc h))
  waited-Noted none none (some e) s = (λ h. refl, λ response h. absurd (cc h))
  waited-Noted none none none s = reply-Noted _ (record s { world = (send s.world).1 })

  -- A call that returns no response leaves the limiter alone; one that returns a response, with or
  -- without an error, has updated the limiter from that response's headers.
  pub do_rest_noted :
      (s : Session r ceil_div)
      → let (result, s') = do_rest r ceil_div encode build send body_of decode s in
        ((result.0 ≡ none) → s'.limiter ≡ s.limiter)
        × ((response : Response)
            → result.0 ≡ some response
            → s'.limiter
              ≡ update_from_headers ceil_div
                  (r.now s'.world)
                  (r.later s'.world)
                  response.headers
                  s.limiter)
  unfolding do_rest rest_wait
  do_rest_noted s = waited-Noted _ encode build (rest_wait r ceil_div s).1
