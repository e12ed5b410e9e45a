-- ===== src/Base/Errors.antt =====
-- Go's `error` values, and the results of functions that return one.
use Prim.Native.String.{String}
use mathlib.Core.List.{List}
use mathlib.Core.Path.{◌≡◌}
use amazing_gitlab_exporter.Base.Int.{ℤ}

-- An argument of `fmt.Errorf`.
pub data Arg : Type 0 where
  num : ℤ → Arg
  text : String → Arg

-- `new` is `fmt.Errorf` with no `%w`, `wrap` with one; `context` is `ctx.Err()`, and `foreign` an
-- error that a package outside the program returns, with its text.
pub data Error : Type 0 where
  new : String → List Arg → Error
  wrap : String → List Arg → Error → Error
  context : Error
  foreign : String → Error

pub data Result {ℓ} (A : Type ℓ) : Type ℓ where
  ok : A → Result A
  err : Error → Result A

pub ok-injective {ℓ} : {A : Type ℓ} {a b : A} → ok a ≡ ok b → a ≡ b
ok-injective h = cc h
