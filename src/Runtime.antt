-- ===== src/Runtime.antt =====
-- What the program uses of the Go runtime and of `golang.org/x/time/rate`, as a parameter: the
-- clock, a wait that a context may cut short, and a token bucket. `World` is everything outside
-- the program; each interaction takes a world and returns the next one.
use amazing_gitlab_exporter.Base.{◌≡◌, Bool, true, Option}
use amazing_gitlab_exporter.Base.Int.{ℤ, ◌+ℤ◌, ◌≤ℤ◌}
use amazing_gitlab_exporter.Base.Errors.{Error}

-- A `*rate.Limiter`: `none` is `rate.Inf`.
pub record Bucket : Type 0 where
  pub limit : Option ℤ
  pub burst : ℤ

pub record Runtime : Type 1 where
  pub World : Type 0
  -- What `time.Now()` reads, in nanoseconds since the Unix epoch.
  pub now : World → ℤ
  -- What a second `time.Now()` of the same step reads; nothing is assumed about how much later it is.
  pub later : World → ℤ
  -- `select` on `time.After(d)` and `ctx.Done()`: whether the timer was chosen.
  pub select : ℤ → World → Bool × World
  -- `(*rate.Limiter).Wait(ctx)`: the error, if any.
  pub bucket_wait : Bucket → World → Option Error × World
  -- `ctx.Err()`.
  pub ctx_err : World → Option Error

-- The documented behaviour that theorems rely on: a timer fires after its delay, and the clock
-- does not run backwards over a wait.
pub record IsTimely (r : Runtime) : Type 0 where
  pub select-timer :
      (d : ℤ) (w : r.World) → (r.select d w).0 ≡ true → (r.now w +ℤ d) ≤ℤ r.now (r.select d w).1
  pub bucket_wait-now : (b : Bucket) (w : r.World) → r.now w ≤ℤ r.now (r.bucket_wait b w).1
