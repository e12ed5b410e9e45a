-- ===== src/Base/Strconv.antt =====
-- `strconv.Atoi`, `strconv.ParseInt(s, 10, 64)` (the same function for a 64-bit `int`) and
-- `strconv.FormatInt(n, 10)`. What is read is an optional sign and decimal digits, within int64.
pub mod Roundtrip
use Prim.Native.Nat.{ℕ, zero, suc, ◌+◌, ◌-◌, ◌*◌, ◌/◌, ◌%◌, ◌^◌}
use Prim.Native.Char.{code}
use Prim.Native.String.{String}
use mathlib.Core.Bool.{Bool, true, false, ◌&&◌}
use mathlib.Core.Option.{Option, none, some}
use mathlib.Core.List.{List, [], ◌∷◌}
use amazing_gitlab_exporter.Base.Tests.{ltb, leb, ◌==◌, comparable_nat, if◌then◌else◌}
use amazing_gitlab_exporter.Base.Int.{ℤ, pos, negsuc}

abbrev pub codes : String → List ℕ
codes String.[] = []
codes (String.◌∷◌ c s) = code c ∷ codes s

abbrev pub is_digit : ℕ → Bool
is_digit c = leb b'0' c && leb c b'9'

-- The value of a run of digits after `acc`, if nothing else stands in it.
unfoldable pub digits : ℕ → List ℕ → Option ℕ
digits acc [] = some acc
digits acc (c ∷ cs) =
    let rest = digits (acc * 10 + (c - b'0')) cs in if is_digit c then rest else none

unfoldable pub magnitude : List ℕ → Option ℕ
magnitude [] = none
magnitude (c ∷ cs) = digits 0 (c ∷ cs)

unfoldable pub signed : Bool → Option ℕ → Option ℤ
signed minus none = none
signed true (some zero) = some (pos 0)
signed true (some (suc n)) = if ltb n (2 ^ 63) then some (negsuc n) else none
signed false (some n) = if ltb n (2 ^ 63) then some (pos n) else none

unfoldable pub parse_codes : List ℕ → Option ℤ
parse_codes [] = none
parse_codes (c ∷ cs) =
    if c == b'-'
    then signed true (magnitude cs)
    else if c == b'+'
    then signed false (magnitude cs)
    else signed false (magnitude (c ∷ cs))

unfoldable pub atoi : String → Option ℤ
unfolding parse_codes signed magnitude digits
atoi s = parse_codes (codes s)

-- The decimal digits of `n` before `acc`; `fuel` above `n` is enough.
unfoldable pub decimal : ℕ → ℕ → List ℕ → List ℕ
decimal zero n acc = acc
decimal (suc fuel) n acc =
    let digit = b'0' + n % 10 in
    let rest = decimal fuel (n / 10) (digit ∷ acc) in if n / 10 == 0 then digit ∷ acc else rest

-- `strconv.FormatInt(n, 10)`.
unfoldable pub format_int : ℤ → List ℕ
format_int (pos n) = decimal (suc n) n []
format_int (negsuc n) = b'-' ∷ decimal (suc (suc n)) (suc n) []
