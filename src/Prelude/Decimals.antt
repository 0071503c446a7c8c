-- ===== src/Prelude/Decimals.antt =====
-- Decimal numbers in ASCII: what fmt and strconv print and read.
use Prim.Native.Nat.{ℕ, zero, suc, ◌+◌, ◌-◌, ◌*◌, ◌/◌, ◌%◌, ◌≤◌, ◌<◌}
use mathlib.Core.Path.{◌≡◌, refl, ◌∙◌, ap, sym}
use mathlib.Core.Bool.{Bool, true, false, ◌&&◌}
use mathlib.Core.Logic.{inl, inr}
use mathlib.Core.Option.{Option, none, some}
use mathlib.Core.List.{[], ◌∷◌}
use native.Mathlib.Omega.{arith}
use contrast.Prelude.Tests.{ltb, leb, Bool-cases}
use contrast.Prelude.ByteStrings.{Bytes}

-- The digits of a number in front of what is there, with fuel for each of them.
unfoldable pub digits : ℕ → ℕ → Bytes → Bytes
digits zero n rest = rest
digits (suc fuel) n rest = elim (ltb n 10) [
  | true ↦ (48 + n) ∷ rest
  | false ↦ digits fuel (n / 10) ((48 + n % 10) ∷ rest)
]

-- A number of at most 32 bits has at most ten digits, and one of 64 bits at most twenty.
abbrev pub format_decimal : ℕ → Bytes
format_decimal n = digits 20 n []

abbrev pub is_digit : ℕ → Bool
is_digit c = leb 48 c && leb c 57

abbrev digit_then : Bool → Option ℕ → Option ℕ
digit_then true rest = rest
digit_then false rest = none

unfoldable pub read_digits : ℕ → Bytes → Option ℕ
read_digits n [] = some n
read_digits n (c ∷ cs) = digit_then (is_digit c) (read_digits (n * 10 + (c - 48)) cs)

-- At least one digit, and only digits.
abbrev pub parse_decimal : Bytes → Option ℕ
parse_decimal [] = none
parse_decimal (c ∷ cs) = read_digits 0 (c ∷ cs)

-- The numbers of so many digits are those below.
abbrev pub below : ℕ → ℕ
below zero = 1
below (suc k) = 10 * below k

read_digits-digit :
    (n d : ℕ) (rest : Bytes)
    → d < 10
    → read_digits n ((48 + d) ∷ rest) ≡ read_digits (n * 10 + d) rest
unfolding read_digits
read_digits-digit n d rest h =
    let lower : leb 48 (48 + d) ≡ true = ground arith in
    let upper : leb (48 + d) 57 ≡ true = ground arith in
    let same : 48 + d - 48 ≡ d = omega arith in rw (lower, upper, same) refl

pub read_digits-digits :
    (fuel n : ℕ) (rest : Bytes)
    → n < below fuel
    → 0 < fuel
    → read_digits 0 (digits fuel n rest) ≡ read_digits n rest
unfolding digits
read_digits-digits zero n rest h p = absurd (omega arith)
read_digits-digits (suc fuel) n rest h p = elim (Bool-cases (ltb n 10)) [
  | inl small ↦
      let lt : n < 10 = ground arith in
      rw (small, digits)
        (read_digits-digit 0 n rest lt ∙ ap (λ k. read_digits k rest) (omega arith))
  | inr large ↦
      let ge : 10 ≤ n = ground arith in
      rw (large, digits)
        (read_digits-digits fuel (n / 10) ((48 + n % 10) ∷ rest) (omega arith) (more fuel n h ge)
          ∙ read_digits-digit (n / 10) (n % 10) rest (omega arith)
          ∙ ap (λ k. read_digits k rest) (omega arith))
]
  where
    more : (f m : ℕ) → m < 10 * below f → 10 ≤ m → 0 < f
    more zero m l g = absurd (omega arith)
    more (suc f) m l g = omega arith

digits-cons :
    (fuel n c : ℕ) (cs : Bytes) → (d : ℕ) × (ds : Bytes) × (digits fuel n (c ∷ cs) ≡ d ∷ ds)
unfolding digits
digits-cons zero n c cs = (c, cs, refl)
digits-cons (suc fuel) n c cs = elim (Bool-cases (ltb n 10)) [
  | inl small ↦ (48 + n, c ∷ cs, rw (small, digits) refl)
  | inr large ↦
      let (d, ds, e) = digits-cons fuel (n / 10) (48 + n % 10) (c ∷ cs) in
      (d, ds, rw (large, digits) e)
]

digits_nonempty : (fuel n : ℕ) → (d : ℕ) × (ds : Bytes) × (digits (suc fuel) n [] ≡ d ∷ ds)
unfolding digits
digits_nonempty fuel n = elim (Bool-cases (ltb n 10)) [
  | inl small ↦ (48 + n, [], rw (small, digits) refl)
  | inr large ↦
      let (d, ds, e) = digits-cons fuel (n / 10) (48 + n % 10) [] in (d, ds, rw (large, digits) e)
]

-- A number of at most twenty digits is read back.
pub parse-format_decimal : (n : ℕ) → n < below 20 → parse_decimal (format_decimal n) ≡ some n
unfolding read_digits
parse-format_decimal n h =
    let (d, ds, e) = digits_nonempty 19 n in
    ap parse_decimal e ∙ ap (read_digits 0) (sym e) ∙ read_digits-digits 20 n [] h (omega arith)
