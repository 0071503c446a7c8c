-- ===== src/Store/Keys.antt =====
-- internal/history/aferostore/aferostore.go and internal/history/configmapstore/configmapstore.go:
-- keyRe, ^[a-zA-Z0-9-]+/[a-zA-Z0-9-]+$, and objectName.
use contrast.Prelude.{
  Bytes, codes, ◌==◌, leb, if◌then◌else◌, Bool, true, false, ◌&&◌, ◌||◌, [], ◌∷◌, ◌++◌, map, ℕ, ◌≡◌,
  ◌≢◌, refl, arith, All, Result, ok, err, invalid_key,
}

abbrev is_key_char : ℕ → Bool
is_key_char c =
    (leb b'a' c && leb c b'z')
    || (leb b'A' c && leb c b'Z')
    || (leb b'0' c && leb c b'9')
    || c == b'-'

abbrev is_part : Bool → Bytes → Bool
is_part seen [] = seen
is_part seen (c ∷ cs) = is_key_char c && is_part true cs

abbrev is_key_from : Bool → Bytes → Bool
is_key_from seen [] = false
is_key_from seen (c ∷ cs) =
    let rest = is_key_from true cs in
    if c == b'/' then seen && is_part false cs else is_key_char c && rest

-- keyRe.MatchString
unfoldable pub is_key : Bytes → Bool
is_key key = is_key_from false key

-- filepath.Base and filepath.Dir of a key that matches.
unfoldable pub base : Bytes → Bytes
base [] = []
base (c ∷ cs) = let rest = base cs in if c == b'/' then cs else rest

unfoldable pub dir : Bytes → Bytes
dir [] = []
dir (c ∷ cs) = let rest = dir cs in if c == b'/' then [] else c ∷ rest

-- strings.ReplaceAll(key, "/", "-")
abbrev replace_slash : ℕ → ℕ
replace_slash c = if c == b'/' then b'-' else c

unfoldable pub object_name : Bytes → Result Bytes
unfolding is_key
object_name key =
    if is_key key
    then ok (codes "contrast-store-" ++ map replace_slash key)
    else err (invalid_key key)

replace_slash-injective :
    (k j : Bytes)
    → All (λ c. c ≢ b'-') k
    → All (λ c. c ≢ b'-') j
    → map replace_slash k ≡ map replace_slash j
    → k ≡ j
replace_slash-injective [] [] h g e = refl
replace_slash-injective [] (d ∷ j) h g e = cc
replace_slash-injective (c ∷ k) [] h g e = cc
replace_slash-injective (c ∷ k) (d ∷ j) (hc, h) (gd, g) e =
    ground (arith, replace_slash-injective k j h g)

-- Keys of two identifiers without a dash have objects of their own.
pub object_name-injective :
    (k j : Bytes) {name : Bytes}
    → All (λ c. c ≢ b'-') k
    → All (λ c. c ≢ b'-') j
    → object_name k ≡ ok name
    → object_name j ≡ ok name
    → k ≡ j
unfolding object_name
object_name-injective k j h g e e' = ground (arith, replace_slash-injective k j h g)
