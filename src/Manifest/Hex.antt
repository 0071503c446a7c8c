-- ===== src/Manifest/Hex.antt =====
-- HexString of internal/manifest/manifest.go: encoding/hex as the source uses it.
use contrast.Prelude.{
  Bytes, leb, ltb, if◌then◌else◌, ◌&&◌, ◌==◌, Option, none, some, ℕ, ◌+◌, ◌-◌, ◌*◌, ◌/◌, ◌%◌, ◌<◌,
  [], ◌∷◌, ◌≡◌, refl, arith, All, length, Bool, true, false,
}
use contrast.History.Encoding.{hex_encode}

abbrev from_hex_char : ℕ → Option ℕ
from_hex_char c =
    if leb b'0' c && leb c b'9'
    then some (c - 48)
    else if leb b'a' c && leb c b'f'
    then some (c - 87)
    else if leb b'A' c && leb c b'F'
    then some (c - 55)
    else none

abbrev join_digits : Option ℕ → Option ℕ → Option Bytes → Option Bytes
join_digits (some a) (some b) (some rest) = some ((a * 16 + b) ∷ rest)
join_digits _ _ _ = none

-- HexString.Bytes, hex.DecodeString: two digits of either case for each byte, and nothing else.
unfoldable pub hex_decode : Bytes → Option Bytes
hex_decode [] = some []
hex_decode (c ∷ []) = none
hex_decode (c ∷ d ∷ s) = join_digits (from_hex_char c) (from_hex_char d) (hex_decode s)

from_hex_digit : (n : ℕ) → n < 16 → from_hex_char (if ltb n 10 then 48 + n else 87 + n) ≡ some n
from_hex_digit n h = ground arith

-- NewHexString and Bytes: a list of numbers below 256 is read back from its hex form.
pub hex_decode-hex_encode : (b : Bytes) → All (λ x. x < 256) b → hex_decode (hex_encode b) ≡ some b
unfolding hex_decode hex_encode
hex_decode-hex_encode [] h = refl
hex_decode-hex_encode (x ∷ b) (hx, h) =
    rw
      (
        from_hex_digit (x / 16) (omega arith),
        from_hex_digit (x % 16) (omega arith),
        hex_decode-hex_encode b h,
      )
      (ground arith)

pub length-hex_encode : (b : Bytes) → length (hex_encode b) ≡ 2 * length b
unfolding hex_encode
length-hex_encode [] = omega arith
length-hex_encode (x ∷ b) = omega (arith, length-hex_encode b)

-- validateHexString
unfoldable pub is_hex_string : Bytes → ℕ → Bool
is_hex_string s n = length s == n * 2 && is_decoded (hex_decode s)
  where
    is_decoded : Option Bytes → Bool
    is_decoded none = false
    is_decoded (some b) = true
