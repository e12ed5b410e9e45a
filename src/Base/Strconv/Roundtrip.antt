-- ===== src/Base/Strconv/Roundtrip.antt =====
-- What `strconv.FormatInt` prints, `strconv.ParseInt` reads back.
use amazing_gitlab_exporter.Base.{
  ℕ, zero, suc, ◌+◌, ◌-◌, ◌*◌, ◌/◌, ◌%◌, ◌^◌, ◌<◌, ◌≡◌, refl, ap, ◌∙◌, true, false, some, List, [],
  ◌∷◌, ◌==◌, comparable_nat, Bool-cases, inl, inr, arith, ltb,
}
use amazing_gitlab_exporter.Base.Int.{ℤ, pos, negsuc}
use amazing_gitlab_exporter.Base.Strconv.{
  is_digit, digits, magnitude, signed, parse_codes, decimal, format_int,
}

is_digit-digit : (n : ℕ) → is_digit (b'0' + n % 10) ≡ true
is_digit-digit n = ground arith

offset : (n : ℕ) → b'0' + n % 10 - b'0' ≡ n % 10
offset n = omega arith

digits-digit :
    (a n : ℕ) (acc : List ℕ) → digits a ((b'0' + n % 10) ∷ acc) ≡ digits (a * 10 + n % 10) acc
unfolding digits
digits-digit a n acc = rw (is_digit-digit n, offset n) refl

digits-decimal :
    (fuel n : ℕ) (acc : List ℕ) → n < fuel → digits 0 (decimal fuel n acc) ≡ digits n acc
unfolding decimal
digits-decimal zero n acc h = absurd (omega (arith, h))
digits-decimal (suc fuel) n acc h = elim (Bool-cases (n / 10 == 0)) [
  | inl small ↦ rw small (digits-digit 0 n acc ∙ ap (λ m. digits m acc) (ground (arith, small)))
  | inr large ↦ rw large (
      digits-decimal fuel (n / 10) ((b'0' + n % 10) ∷ acc) (ground (arith, h, large))
      ∙ digits-digit (n / 10) n acc
      ∙ ap (λ m. digits m acc) (omega arith))
]

abbrev DigitFirst : List ℕ → Type 0
DigitFirst [] = false ≡ true
DigitFirst (c ∷ cs) = is_digit c ≡ true

decimal-DigitFirst : (fuel n : ℕ) (acc : List ℕ) → n < fuel → DigitFirst (decimal fuel n acc)
unfolding decimal
decimal-DigitFirst zero n acc h = absurd (omega (arith, h))
decimal-DigitFirst (suc fuel) n acc h = elim (Bool-cases (n / 10 == 0)) [
  | inl small ↦ rw small (is_digit-digit n)
  | inr large ↦
      rw large (decimal-DigitFirst fuel (n / 10) ((b'0' + n % 10) ∷ acc) (ground (arith, h, large)))
]

magnitude-DigitFirst : (cs : List ℕ) → DigitFirst cs → magnitude cs ≡ digits 0 cs
unfolding magnitude
magnitude-DigitFirst [] h = absurd (cc h)
magnitude-DigitFirst (c ∷ cs) h = refl

parse_codes-DigitFirst :
    (cs : List ℕ) → DigitFirst cs → parse_codes cs ≡ signed false (magnitude cs)
unfolding parse_codes
parse_codes-DigitFirst [] h = absurd (cc h)
parse_codes-DigitFirst (c ∷ cs) h = rw (not_minus c h, not_plus c h) refl
  where
    not_minus : (c : ℕ) → is_digit c ≡ true → (c == b'-') ≡ false
    not_minus c h = ground (arith, h)

    not_plus : (c : ℕ) → is_digit c ≡ true → (c == b'+') ≡ false
    not_plus c h = ground (arith, h)

-- Within an int64.
abbrev pub FitsInt64 : ℤ → Type 0
FitsInt64 (pos n) = n < 2 ^ 63
FitsInt64 (negsuc n) = n < 2 ^ 63

magnitude-decimal : (n : ℕ) → magnitude (decimal (suc n) n []) ≡ some n
unfolding digits
magnitude-decimal n =
    magnitude-DigitFirst (decimal (suc n) n []) (decimal-DigitFirst (suc n) n [] (omega arith))
    ∙ digits-decimal (suc n) n [] (omega arith)

below : (n : ℕ) → n < 2 ^ 63 → ltb n (2 ^ 63) ≡ true
below n h = ground (arith, h)

-- Reading what was printed gives the number back, for every int64.
pub parse-format_int : (n : ℤ) → FitsInt64 n → parse_codes (format_int n) ≡ some n
unfolding format_int signed parse_codes
parse-format_int (pos n) h =
    parse_codes-DigitFirst (decimal (suc n) n []) (decimal-DigitFirst (suc n) n [] (omega arith))
    ∙ rw (magnitude-decimal n, below n h) refl
parse-format_int (negsuc n) h = rw (magnitude-decimal (suc n), below n h) refl
