-- ===== src/Gitlab/RateLimiter/Waiting.antt =====
-- When `Wait` lets a request go.
use amazing_gitlab_exporter.Base.{
  ◌-◌, ◌^◌, ◌≡◌, ◌≢◌, true, false, none, inl, inr, Bool-cases, arith,
}
use amazing_gitlab_exporter.Base.Int.{ℤ, pos, ◌+ℤ◌, ◌≤ℤ◌, ◌<ℤ◌}
use amazing_gitlab_exporter.Runtime.{Runtime, IsTimely}
use amazing_gitlab_exporter.Gitlab.RateLimiter.{
  RateLimiter, zero_time, sub_time, must_wait, wait_backoff, wait,
}

sub_time-add : (t n s : ℤ) → n <ℤ t → t ≤ℤ n +ℤ pos (2 ^ 63 - 1) → n +ℤ sub_time t n ≤ℤ s → t ≤ℤ s
unfolding sub_time
sub_time-add t n s h near k = ground arith

must_wait-true : (rl : RateLimiter) (n : ℤ) → must_wait rl n ≡ true → n <ℤ rl.backoff_until
unfolding must_wait
must_wait-true rl n h = ground arith

must_wait-false :
    (rl : RateLimiter) (n : ℤ)
    → rl.backoff_until ≢ zero_time
    → must_wait rl n ≡ false
    → rl.backoff_until ≤ℤ n
unfolding must_wait
must_wait-false rl n set h = ground arith

le_ℤ_trans : (a b c : ℤ) → a ≤ℤ b → b ≤ℤ c → a ≤ℤ c
le_ℤ_trans a b c h k = omega arith

module _ (r : Runtime) (timely : IsTimely r) (rl : RateLimiter) (w : r.World) where
  wait_backoff-now :
      rl.backoff_until ≢ zero_time
      → rl.backoff_until ≤ℤ r.now w +ℤ pos (2 ^ 63 - 1)
      → (wait_backoff r rl w).0 ≡ true
      → rl.backoff_until ≤ℤ r.now (wait_backoff r rl w).1
  unfolding wait_backoff
  wait_backoff-now set near = elim (Bool-cases (must_wait rl (r.now w))) [
    | inl before ↦ rw before λ h.
        sub_time-add rl.backoff_until (r.now w) _ (must_wait-true rl (r.now w) before) near
          (timely.select-timer (sub_time rl.backoff_until (r.now w)) w h)
    | inr after ↦ rw after λ _. must_wait-false rl (r.now w) set after
  ]

  -- A request that `Wait` lets go is not sent before the backoff has passed, where one is set and
  -- it ends within the range of a duration.
  pub wait-backoff :
      rl.backoff_until ≢ zero_time
      → rl.backoff_until ≤ℤ r.now w +ℤ pos (2 ^ 63 - 1)
      → (wait r rl w).0 ≡ none
      → rl.backoff_until ≤ℤ r.now (wait r rl w).1
  unfolding wait
  wait-backoff set near = elim (Bool-cases (wait_backoff r rl w).0) [
    | inl elapsed ↦ rw elapsed λ _.
        le_ℤ_trans rl.backoff_until (r.now (wait_backoff r rl w).1) _
          (wait_backoff-now set near elapsed)
          (timely.bucket_wait-now rl.bucket (wait_backoff r rl w).1)
    | inr cancelled ↦ rw cancelled λ h. cc
  ]
