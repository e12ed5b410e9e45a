-- ===== src/Gitlab/RateLimiter.antt =====
-- internal/gitlab/ratelimiter.go. Times are nanoseconds since the Unix epoch. The mutex makes each
-- method one step, and log lines are left out.
pub mod Backoff
pub mod Waiting
mod Tests
use amazing_gitlab_exporter.Base.{
  ℕ, zero, suc, ◌+◌, ◌-◌, ◌*◌, ◌^◌, String, Bool, true, false, not, ◌&&◌, Option, none, some, ltb,
  leb, ◌==◌, comparable_string, if◌then◌else◌,
}
use amazing_gitlab_exporter.Base.Int.{
  ℤ, pos, negsuc, pos_part, neg_part, ◌+ℤ◌, ◌-ℤ◌, ltb_ℤ, leb_ℤ, wrap64,
}
use amazing_gitlab_exporter.Base.Errors.{Error, context}
use amazing_gitlab_exporter.Base.Strconv.{atoi}
use amazing_gitlab_exporter.Runtime.{Bucket, Runtime}

-- `http.Header.Get`: the first value of a key, `""` if there is none.
abbrev pub Headers : Type 0
Headers = String → String

abbrev pub nanoseconds : ℕ
nanoseconds = 1000000000

-- The zero `time.Time`, the first instant of the year 1.
abbrev pub zero_time : ℤ
zero_time = negsuc (62135596800 * nanoseconds - 1)

-- `time.Unix(sec, 0)`.
abbrev pub unix : ℤ → ℤ
unix (pos n) = pos (n * nanoseconds)
unix (negsuc n) = negsuc (suc n * nanoseconds - 1)

-- `a.Sub(b)` saturates at the ends of `time.Duration`.
pub sub_time : ℤ → ℤ → ℤ
sub_time a b =
    let d = a -ℤ b in
    if leb (2 ^ 63) (pos_part d)
    then pos (2 ^ 63 - 1)
    else if ltb (2 ^ 63) (neg_part d)
    then negsuc (2 ^ 63 - 1)
    else d

pub record RateLimiter : Type 0 where
  pub bucket : Bucket
  pub header_reset : ℤ
  pub header_remaining : ℤ
  pub backoff_until : ℤ

pub new_bucket : ℤ → ℤ → Bucket
new_bucket rps burst =
    if leb_ℤ rps (pos 0)
    then record { limit = none; burst = pos 0 }
    else record { limit = some rps; burst = if ltb_ℤ burst (pos 1) then pos 1 else burst }

unfoldable pub new_rate_limiter : ℤ → ℤ → RateLimiter
unfolding new_bucket
new_rate_limiter rps burst = record {
  bucket = new_bucket rps burst;
  header_reset = zero_time;
  header_remaining = negsuc 0;
  backoff_until = zero_time;
}

-- The guarded assignment that every branch of `UpdateFromHeaders` makes to `backoffUntil`.
pub raise_backoff : ℤ → RateLimiter → RateLimiter
raise_backoff until rl =
    if ltb_ℤ rl.backoff_until until then record rl { backoff_until = until } else rl

positive : Option ℤ → Option ℕ
positive (some (pos (suc n))) = some (suc n)
positive _ = none

-- The seconds of a `Retry-After` header that parses and is positive.
unfoldable pub retry_after : Headers → Option ℕ
unfolding positive
retry_after headers =
    let ra = headers "Retry-After" in if ra == "" then none else positive (atoi ra)

-- `time.Duration(sec) * time.Second`, in an `int64`.
abbrev pub retry_delay : ℕ → ℤ
retry_delay sec = wrap64 (sec * nanoseconds)

-- `headers.Get` of a number, where a missing or malformed one ends the function.
pub header_int : Headers → String → Option ℤ
header_int headers key = let s = headers key in if s == "" then none else atoi s

-- `ceil_div u k` is `time.Duration(math.Ceil(float64(u) / float64(k)))`, the one place where the
-- limiter computes in floating point.
module _ (ceil_div : ℤ → ℤ → ℤ) where
  -- Nearly exhausted: spread the remaining requests over the window. The clock is read twice, by
  -- `time.Until` and by the `time.Now` that the delay is added to.
  pub spread : ℤ → ℤ → ℤ → RateLimiter → RateLimiter
  spread now later remaining rl =
      let until_reset = sub_time rl.header_reset now in
      if ltb_ℤ (pos 0) until_reset
      then raise_backoff (later +ℤ ceil_div until_reset (remaining +ℤ pos 1)) rl
      else rl

  pub throttle : ℤ → ℤ → ℤ → RateLimiter → RateLimiter
  throttle now later remaining rl =
      if leb_ℤ remaining (pos 0)
      then raise_backoff rl.header_reset rl
      else if ltb_ℤ remaining (pos 10)
      then spread now later remaining rl
      else rl

  record_reset : ℤ → ℤ → ℤ → Option ℤ → RateLimiter → RateLimiter
  record_reset now later remaining none rl = rl
  record_reset now later remaining (some epoch) rl =
      throttle now later remaining (record rl { header_reset = unix epoch })

  record_remaining : ℤ → ℤ → Option ℤ → Option ℤ → RateLimiter → RateLimiter
  record_remaining now later none reset rl = rl
  record_remaining now later (some remaining) reset rl =
      record_reset now later remaining reset (record rl { header_remaining = remaining })

  -- The three headers once they are read. `now` is the first reading of the clock in a call, and
  -- `later` the second, which only `spread` makes.
  pub update_parsed : ℤ → ℤ → Option ℕ → Option ℤ → Option ℤ → RateLimiter → RateLimiter
  update_parsed now later (some sec) remaining reset rl = raise_backoff (now +ℤ retry_delay sec) rl
  update_parsed now later none remaining reset rl = record_remaining now later remaining reset rl

  pub update_from_headers : ℤ → ℤ → Headers → RateLimiter → RateLimiter
  update_from_headers now later headers rl =
      update_parsed now later (retry_after headers) (header_int headers "RateLimit-Remaining")
        (header_int headers "RateLimit-Reset") rl

-- `!backoff.IsZero() && time.Now().Before(backoff)`.
pub must_wait : RateLimiter → ℤ → Bool
must_wait rl now =
    let zero = leb_ℤ rl.backoff_until zero_time && leb_ℤ zero_time rl.backoff_until in
    not zero && ltb_ℤ now rl.backoff_until

module _ (r : Runtime) where
  open r use {World, now, select, bucket_wait}

  -- The wait for the header-based backoff: whether the context ended it.
  pub wait_backoff : RateLimiter → World → Bool × World
  wait_backoff rl w =
      if must_wait rl (now w) then select (sub_time rl.backoff_until (now w)) w else (true, w)

  unfoldable pub wait : RateLimiter → World → Option Error × World
  unfolding wait_backoff must_wait sub_time
  wait rl w =
      let (elapsed, w') = wait_backoff rl w in
      if elapsed then bucket_wait rl.bucket w' else (some context, w')

pub remaining : RateLimiter → ℤ
remaining rl = rl.header_remaining

pub reset_at : RateLimiter → ℤ
reset_at rl = rl.header_reset
