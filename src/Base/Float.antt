-- ===== src/Base/Float.antt =====
-- The values of Go's `float64`, for constants and settings. What the program computes with floating-point
-- numbers is over a parameter of the models.
use Prim.Native.Nat.{ℕ}
use mathlib.Core.Bool.{Bool, false}
use amazing_gitlab_exporter.Base.Int.{ℤ, pos}

-- `finite negative m e` is m · 2^e, or its negative.
pub data Float64 : Type 0 where
  not_a_number : Float64
  infinite : Bool → Float64
  finite : Bool → ℕ → ℤ → Float64

-- A constant that is a whole number.
abbrev pub whole_float : ℕ → Float64
whole_float n = finite false n (pos 0)
