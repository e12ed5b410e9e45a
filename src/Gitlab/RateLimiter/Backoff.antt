-- ===== src/Gitlab/RateLimiter/Backoff.antt =====
-- What `UpdateFromHeaders` does to the time until which requests wait.
use amazing_gitlab_exporter.Base.{
  ℕ, ◌*◌, ◌%◌, ◌^◌, ◌≤◌, ◌<◌, ◌≡◌, refl, ◌⊎◌, inl, inr, Option, none, some, Bool-cases, arith,
}
use amazing_gitlab_exporter.Base.Int.{ℤ, pos, +ℤ_parts, -ℤ_parts, ltb_ℤ, ◌+ℤ◌, ◌-ℤ◌, ◌≤ℤ◌, ◌<ℤ◌}
use amazing_gitlab_exporter.Gitlab.RateLimiter.{
  Headers, RateLimiter, nanoseconds, unix, raise_backoff, spread, throttle, sub_time, retry_after,
  retry_delay, header_int, record_reset, record_remaining, update_parsed, update_from_headers,
}

raise_backoff-ge : (t : ℤ) (rl : RateLimiter) → t ≤ℤ (raise_backoff t rl).backoff_until
unfolding raise_backoff
raise_backoff-ge t rl = ground arith

raise_backoff_mono :
    (t : ℤ) (rl : RateLimiter) → rl.backoff_until ≤ℤ (raise_backoff t rl).backoff_until
unfolding raise_backoff
raise_backoff_mono t rl = ground arith

raise_backoff-le :
    (t bound : ℤ) (rl : RateLimiter)
    → t ≤ℤ bound
    → let rl' = raise_backoff t rl in
      (rl'.backoff_until ≡ rl.backoff_until) ⊎ (rl'.backoff_until ≤ℤ bound)
unfolding raise_backoff
raise_backoff-le t bound rl h = ground (arith, h)

sub_time-exact :
    (a b : ℤ)
    → pos 0 <ℤ sub_time a b
    → a ≤ℤ b +ℤ pos (2 ^ 53)
    → (sub_time a b ≤ℤ pos (2 ^ 53)) × (b +ℤ sub_time a b ≤ℤ a)
unfolding sub_time
sub_time-exact a b h near = ground (arith, h, near)

later_le :
    (reset now later u q : ℤ) → now +ℤ u ≤ℤ reset → q ≤ℤ u → later +ℤ q ≤ℤ reset +ℤ (later -ℤ now)
later_le reset now later u q h k = omega (
  arith,
  h,
  k,
  +ℤ_parts now u,
  +ℤ_parts later q,
  -ℤ_parts later now,
  +ℤ_parts reset (later -ℤ now),
)

-- A floating-point quotient of a duration up to 2^53 by a number above 1 is no larger than the
-- duration.
abbrev pub IsQuotient : (ℤ → ℤ → ℤ) → Type 0
IsQuotient ceil_div = (u k : ℤ) → pos 0 <ℤ u → u ≤ℤ pos (2 ^ 53) → pos 1 <ℤ k → ceil_div u k ≤ℤ u

module _ (ceil_div : ℤ → ℤ → ℤ) (now later : ℤ) where
  spread-le :
      (law : IsQuotient ceil_div) (r : ℤ) (rl : RateLimiter)
      → pos 0 <ℤ r
      → rl.header_reset ≤ℤ now +ℤ pos (2 ^ 53)
      → let rl' = spread ceil_div now later r rl in
        (rl'.backoff_until ≡ rl.backoff_until)
        ⊎ (rl'.backoff_until ≤ℤ rl.header_reset +ℤ (later -ℤ now))
  unfolding spread
  spread-le law r rl some_left near =
      let u = sub_time rl.header_reset now in
      elim (Bool-cases (ltb_ℤ (pos 0) u)) [
        | inl h ↦
            let positive : pos 0 <ℤ u = ground (arith, h) in
            let (small, within) = sub_time-exact rl.header_reset now positive near in
            rw h (
              raise_backoff-le (later +ℤ ceil_div u (r +ℤ pos 1)) _ rl (
                later_le rl.header_reset now later u _ within (
                  law u (r +ℤ pos 1) positive small
                    (omega (arith, some_left, +ℤ_parts r (pos 1))))))
        | inr h ↦ rw h (inl refl)
      ]

  throttle-le :
      (law : IsQuotient ceil_div) (r : ℤ) (rl : RateLimiter)
      → pos 0 <ℤ r
      → rl.header_reset ≤ℤ now +ℤ pos (2 ^ 53)
      → let rl' = throttle ceil_div now later r rl in
        (rl'.backoff_until ≡ rl.backoff_until)
        ⊎ (rl'.backoff_until ≤ℤ rl.header_reset +ℤ (later -ℤ now))
  unfolding throttle
  throttle-le law r rl some_left near = ground (arith, spread-le law r rl some_left near, some_left)

  spread-mono :
      (r : ℤ) (rl : RateLimiter)
      → rl.backoff_until ≤ℤ (spread ceil_div now later r rl).backoff_until
  unfolding spread
  spread-mono r rl =
      ground (
        arith,
        raise_backoff_mono (later +ℤ ceil_div (sub_time rl.header_reset now) (r +ℤ pos 1)) rl,
      )

  throttle-mono :
      (r : ℤ) (rl : RateLimiter)
      → rl.backoff_until ≤ℤ (throttle ceil_div now later r rl).backoff_until
  unfolding throttle
  throttle-mono r rl = ground (arith, spread-mono r rl, raise_backoff_mono rl.header_reset rl)

  update_parsed-mono :
      (ra : Option ℕ) (remaining reset : Option ℤ) (rl : RateLimiter)
      → rl.backoff_until ≤ℤ (update_parsed ceil_div now later ra remaining reset rl).backoff_until
  unfolding update_parsed record_remaining record_reset
  update_parsed-mono (some sec) _ _ rl = raise_backoff_mono (now +ℤ retry_delay sec) rl
  update_parsed-mono none none _ rl = omega arith
  update_parsed-mono none (some r) none rl = omega arith
  update_parsed-mono none (some r) (some e) rl =
      throttle-mono r (record rl { header_remaining = r; header_reset = unix e })

module _ (ceil_div : ℤ → ℤ → ℤ) (now later : ℤ) (headers : Headers) (rl : RateLimiter) where
  -- Whatever the headers say, the backoff is never moved to an earlier time.
  pub update-backoff_mono :
      rl.backoff_until ≤ℤ (update_from_headers ceil_div now later headers rl).backoff_until
  unfolding update_from_headers
  update-backoff_mono =
      update_parsed-mono ceil_div now later (retry_after headers)
        (header_int headers "RateLimit-Remaining") (header_int headers "RateLimit-Reset") rl

  -- With no usable `Retry-After`, an exhausted limit is recorded and makes every later request wait
  -- for the reset at least.
  pub update_exhausted :
      (r e : ℤ)
      → retry_after headers ≡ none
      → header_int headers "RateLimit-Remaining" ≡ some r
      → header_int headers "RateLimit-Reset" ≡ some e
      → r ≤ℤ pos 0
      → let rl' = update_from_headers ceil_div now later headers rl in
        (rl'.header_remaining ≡ r) × (rl'.header_reset ≡ unix e) × (unix e ≤ℤ rl'.backoff_until)
  unfolding update_from_headers update_parsed record_remaining record_reset throttle raise_backoff
  update_exhausted r e h₁ h₂ h₃ h = rw (h₁, h₂, h₃) (ground arith)

  -- With no usable `Retry-After` and requests remaining, a limiter whose window ends within 2^53 ns
  -- of now is not told to wait past the reset by more than the time between the two readings of the
  -- clock, if the floating-point quotient of a duration up to 2^53 by a number above 1 is no larger
  -- than the duration.
  pub update_within_window :
      IsQuotient ceil_div
      → (r e : ℤ) → retry_after headers ≡ none
      → header_int headers "RateLimit-Remaining" ≡ some r
      → header_int headers "RateLimit-Reset" ≡ some e
      → pos 0 <ℤ r
      → unix e ≤ℤ now +ℤ pos (2 ^ 53)
      → let rl' = update_from_headers ceil_div now later headers rl in
        (rl'.backoff_until ≡ rl.backoff_until) ⊎ (rl'.backoff_until ≤ℤ unix e +ℤ (later -ℤ now))
  unfolding update_from_headers update_parsed record_remaining record_reset
  update_within_window law r e h₁ h₂ h₃ h near =
      rw (h₁, h₂, h₃)
        (throttle-le ceil_div now later law r
          (record rl { header_remaining = r; header_reset = unix e }) h near)

  -- A `Retry-After` whose delay overflows into a negative duration makes no request wait: the
  -- backoff stays, or moves to a time that has passed.
  pub update_retry_after_overflow :
      (sec : ℕ)
      → retry_after headers ≡ some sec
      → 2 ^ 63 ≤ (sec * nanoseconds) % 2 ^ 64
      → let rl' = update_from_headers ceil_div now later headers rl in
        (rl'.backoff_until ≡ rl.backoff_until) ⊎ (rl'.backoff_until <ℤ now)
  unfolding update_from_headers update_parsed raise_backoff
  update_retry_after_overflow sec h over = rw h (ground arith)

  -- The backoff that a usable `Retry-After` sets on a limiter that is not backing off further.
  pub update-retry_after_exact :
      (sec : ℕ)
      → retry_after headers ≡ some sec
      → sec * nanoseconds < 2 ^ 63
      → rl.backoff_until ≤ℤ now
      → 0 < sec
      → (update_from_headers ceil_div now later headers rl).backoff_until
        ≡ now +ℤ pos (sec * nanoseconds)
  unfolding update_from_headers update_parsed raise_backoff
  update-retry_after_exact sec h fits idle some_time = rw h (ground arith)
