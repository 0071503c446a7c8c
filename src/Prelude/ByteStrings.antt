-- ===== src/Prelude/ByteStrings.antt =====
-- Byte strings and ASCII texts as lists of numbers.
use Prim.Native.Nat.{ℕ}
use Prim.Native.Char.{code}
use Prim.Native.String.{String}
use mathlib.Core.Path.{◌≡◌, refl, subst}
use mathlib.Core.Logic.{◌↔◌, ◌≢◌, inl, inr}
use mathlib.Core.List.{List, [], ◌∷◌}
use mathlib.Core.Bool.{Bool, true, false, ◌&&◌}
use native.Mathlib.Omega.{arith}
use contrast.Prelude.Tests.{◌==◌, if◌then◌else◌, Bool-cases}

-- A value of Go's `[]byte`: every number is below 256 where a byte string is well formed.
abbrev pub Bytes : Type 0
Bytes = List ℕ

-- The code points of a text: its bytes, if it is ASCII.
abbrev pub codes : String → Bytes
codes String.[] = []
codes (String.◌∷◌ c s) = code c ∷ codes s

-- bytes.Equal, and Go's == on arrays and strings.
abbrev pub bytes_equal : Bytes → Bytes → Bool
bytes_equal [] [] = true
bytes_equal [] (b ∷ bs) = false
bytes_equal (a ∷ xs) [] = false
bytes_equal (a ∷ xs) (b ∷ ys) = a == b && bytes_equal xs ys

pub eq_of_bytes_equal : (xs ys : Bytes) → bytes_equal xs ys ≡ true → xs ≡ ys
eq_of_bytes_equal [] [] h = refl
eq_of_bytes_equal [] (b ∷ ys) h = cc
eq_of_bytes_equal (a ∷ xs) [] h = cc
eq_of_bytes_equal (a ∷ xs) (b ∷ ys) h = ground (arith, eq_of_bytes_equal xs ys)

pub bytes_equal_refl : (xs : Bytes) → bytes_equal xs xs ≡ true
bytes_equal_refl [] = refl
bytes_equal_refl (a ∷ xs) = ground (arith, bytes_equal_refl xs)

pub bytes_equal_iff : (xs ys : Bytes) → (bytes_equal xs ys ≡ true) ↔ (xs ≡ ys)
bytes_equal_iff xs ys =
    (eq_of_bytes_equal xs ys, λ e. subst (λ zs. bytes_equal xs zs ≡ true) e (bytes_equal_refl xs))

pub bytes_equal_of_ne : (xs ys : Bytes) → xs ≢ ys → bytes_equal xs ys ≡ false
bytes_equal_of_ne xs ys h = elim (Bool-cases (bytes_equal xs ys)) [
  | inl e ↦ absurd (h (eq_of_bytes_equal xs ys e))
  | inr e ↦ e
]

-- strings.HasPrefix
abbrev pub has_prefix : Bytes → Bytes → Bool
has_prefix [] s = true
has_prefix (c ∷ p) [] = false
has_prefix (c ∷ p) (d ∷ s) = let rest = has_prefix p s in if c == d then rest else false

abbrev pub is_empty : Bytes → Bool
is_empty [] = true
is_empty (b ∷ bs) = false
