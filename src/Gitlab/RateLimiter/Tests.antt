-- ===== src/Gitlab/RateLimiter/Tests.antt =====
-- Concrete headers, clocks and limiters.
use amazing_gitlab_exporter.Base.{
  ◌*◌, ◌≡◌, ◌⊎◌, refl, String, true, none, ◌==◌, comparable_string, if◌then◌else◌, arith,
}
use amazing_gitlab_exporter.Base.Int.{ℤ, pos, ◌+ℤ◌, ◌-ℤ◌, ◌≤ℤ◌, ◌<ℤ◌}
use amazing_gitlab_exporter.Base.Strconv.{atoi, digits}
use amazing_gitlab_exporter.Runtime.{Runtime, IsTimely}
use amazing_gitlab_exporter.Gitlab.RateLimiter.{
  Headers, RateLimiter, must_wait, wait_backoff, sub_time, nanoseconds, unix, new_rate_limiter,
  retry_after, header_int, update_from_headers, wait,
}
use amazing_gitlab_exporter.Gitlab.RateLimiter.Backoff.{
  update-backoff_mono, update_within_window, update_retry_after_overflow,
}
use amazing_gitlab_exporter.Gitlab.RateLimiter.Waiting.{wait-backoff}

abbrev ten_per_second : RateLimiter
ten_per_second = new_rate_limiter (pos 10) (pos 20)

-- A window of 4 requests that ends 60 seconds into 1970.
abbrev window : String → Headers
window remaining key =
    if key == "RateLimit-Remaining"
    then remaining
    else if key == "RateLimit-Reset"
    then "60"
    else ""

abbrev retry : String → Headers
retry seconds key = if key == "Retry-After" then seconds else ""

-- The quotient of the least duration: a stand-in that the law of the theorem allows.
abbrev least : ℤ → ℤ → ℤ
least u k = pos 1

update-backoff_mono_example :
    ten_per_second.backoff_until
    ≤ℤ (update_from_headers least (pos 0) (pos 1) (window "4") ten_per_second).backoff_until
update-backoff_mono_example = update-backoff_mono least (pos 0) (pos 1) (window "4") ten_per_second

update_within_window_example :
    let rl' = update_from_headers least (pos 0) (pos 1) (window "4") ten_per_second in
    (rl'.backoff_until ≡ ten_per_second.backoff_until)
    ⊎ (rl'.backoff_until ≤ℤ unix (pos 60) +ℤ (pos 1 -ℤ pos 0))
unfolding retry_after header_int atoi digits
update_within_window_example =
    update_within_window least (pos 0) (pos 1) (window "4") ten_per_second
      (λ u k up small above. omega (arith, up)) (pos 4) (pos 60) refl refl refl (omega arith)
      (omega arith)

update_retry_after_overflow_example :
    let rl' = update_from_headers least (pos 0) (pos 1) (retry "9300000000") ten_per_second in
    (rl'.backoff_until ≡ ten_per_second.backoff_until) ⊎ (rl'.backoff_until <ℤ pos 0)
unfolding retry_after atoi digits
update_retry_after_overflow_example =
    update_retry_after_overflow least (pos 0) (pos 1) (retry "9300000000") ten_per_second 9300000000
      refl (omega arith)

-- A clock that timers move on.
abbrev clock : Runtime
clock = record {
  World = ℤ;
  now = λ w. w;
  later = λ w. w +ℤ pos 1;
  select = λ d w. (true, w +ℤ d);
  bucket_wait = λ b w. (none, w);
  ctx_err = λ w. none;
}

clock-IsTimely : IsTimely clock
clock-IsTimely = record {
  select-timer = λ d w h. omega arith;
  bucket_wait-now = λ b w. omega arith;
}

abbrev backing_off : RateLimiter
backing_off = record ten_per_second { backoff_until = pos (5 * nanoseconds) }

wait-backoff_example : pos (5 * nanoseconds) ≤ℤ (wait clock backing_off (pos 0)).1
unfolding wait wait_backoff must_wait sub_time new_rate_limiter
wait-backoff_example =
    wait-backoff clock clock-IsTimely backing_off (pos 0) (λ h. ground (arith, h)) (omega arith)
      refl
