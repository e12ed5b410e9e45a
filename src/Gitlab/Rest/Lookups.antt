-- ===== src/Gitlab/Rest/Lookups.antt =====
-- Single-object calls feed the headers of every response back, also of a refusal.
use amazing_gitlab_exporter.Base.{
  ℕ, ◌*◌, ◌^◌, ◌<◌, ◌≡◌, ap, subst, ◌∙◌, String, none, some, List, arith,
}
use amazing_gitlab_exporter.Base.Int.{ℤ, pos, ◌+ℤ◌, ◌≤ℤ◌}
use amazing_gitlab_exporter.Base.Errors.{Arg, Error, wrap, err}
use amazing_gitlab_exporter.Runtime.{Runtime, IsTimely}
use amazing_gitlab_exporter.Gitlab.RateLimiter.{
  RateLimiter, nanoseconds, retry_after, wait, update_from_headers,
}
use amazing_gitlab_exporter.Gitlab.RateLimiter.Backoff.{update-retry_after_exact}
use amazing_gitlab_exporter.Gitlab.RateLimiter.Waiting.{wait-backoff}
use amazing_gitlab_exporter.Gitlab.Api.{Response, Reply, refused}
use amazing_gitlab_exporter.Gitlab.Rest.{Session, rest_wait, note_response, get_reply, get_one}

module _ (r : Runtime) (ceil_div : ℤ → ℤ → ℤ) {A : Type 0} (call : r.World → Reply A × r.World)
    (format : String) (args : List Arg) (s : Session r ceil_div) (response : Response) (e : Error)
    (waits : (wait r s.limiter s.world).0 ≡ none)
    (refusal : (call (rest_wait r ceil_div s).1.world).0 ≡ refused response e) where
  -- A refused lookup returns its error under the method's text, and the limiter is updated from the
  -- headers of the refusal, at the time when it came.
  pub get_one-refused :
      ((get_one r ceil_div call format args s).0 ≡ err (wrap format args e))
      × ((get_one r ceil_div call format args s).1.limiter
          ≡ update_from_headers ceil_div
              (r.now (call (rest_wait r ceil_div s).1.world).1)
              (r.later (call (rest_wait r ceil_div s).1.world).1)
              response.headers
              s.limiter)
  unfolding get_one get_reply note_response rest_wait
  get_one-refused = (rw (waits, refusal, get_one), rw (waits, refusal, get_one))

  get_one-refused_world :
      (get_one r ceil_div call format args s).1.world ≡ (call (rest_wait r ceil_div s).1.world).1
  unfolding get_one get_reply note_response rest_wait
  get_one-refused_world = rw (waits, refusal, get_one)

module _ (r : Runtime) (timely : IsTimely r) (ceil_div : ℤ → ℤ → ℤ) where
  wait-after :
      (s : Session r ceil_div) (t : ℤ) (sec : ℕ)
      → s.limiter.backoff_until ≡ t +ℤ pos (sec * nanoseconds)
      → sec * nanoseconds < 2 ^ 63
      → pos 0 ≤ℤ t
      → t ≤ℤ r.now s.world
      → (rest_wait r ceil_div s).0 ≡ none
      → t +ℤ pos (sec * nanoseconds) ≤ℤ r.now (rest_wait r ceil_div s).1.world
  unfolding rest_wait
  wait-after s t sec at fits modern later goes =
      subst (λ b. b ≤ℤ r.now (wait r s.limiter s.world).1) at
        (wait-backoff r timely s.limiter s.world (λ z. ground arith) (ground arith) goes)

  module _ {A : Type 0} (call : r.World → Reply A × r.World) (format : String) (args : List Arg)
      (s : Session r ceil_div) (response : Response) (e : Error) (sec : ℕ) where
    -- After a lookup that is refused with a usable `Retry-After` of `sec` seconds, by a limiter that
    -- was not backing off past that time, no request that the limiter lets go next is sent before
    -- those seconds are over; for times after 1970, and delays that fit a duration.
    pub throttled_lookup :
        let refused_at = r.now (call (rest_wait r ceil_div s).1.world).1 in
        let s' = (get_one r ceil_div call format args s).1 in
        (wait r s.limiter s.world).0 ≡ none
        → (call (rest_wait r ceil_div s).1.world).0 ≡ refused response e
        → retry_after response.headers ≡ some sec
        → 0 < sec
        → sec * nanoseconds < 2 ^ 63
        → s.limiter.backoff_until ≤ℤ refused_at
        → pos 0 ≤ℤ refused_at
        → (rest_wait r ceil_div s').0 ≡ none
        → refused_at +ℤ pos (sec * nanoseconds) ≤ℤ r.now (rest_wait r ceil_div s').1.world
    throttled_lookup waits refusal header some_time fits idle modern goes =
        let w' = (call (rest_wait r ceil_div s).1.world).1 in
        wait-after (get_one r ceil_div call format args s).1 (r.now w') sec
          (ap (λ (rl : RateLimiter). rl.backoff_until)
              (get_one-refused r ceil_div call format args s response e waits refusal).1
            ∙ update-retry_after_exact ceil_div (r.now w') (r.later w') response.headers s.limiter
                sec header fits idle some_time)
          fits modern
          (rw (get_one-refused_world r ceil_div call format args s response e waits refusal)
            (omega arith))
          goes
