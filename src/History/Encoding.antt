-- ===== src/History/Encoding.antt =====
-- internal/history/history.go: the binary forms of transitions, and hex.EncodeToString.
use contrast.Prelude.{
  Bytes, Result, ok, err, invalid_length, if◌then◌else◌, leb, ltb, ◌==◌, length, take, drop,
  replicate, ℕ, ◌+◌, ◌*◌, ◌/◌, ◌%◌, ◌<◌, Option, none, some, List, [], ◌∷◌, ◌++◌, ◌≡◌, arith,
  take-append, drop-append, length-append, take-append-drop,
}
use contrast.Crypto.{Crypto}

-- HashSize = sha256.Size
abbrev pub hash_size : ℕ
hash_size = 32

-- [HashSize]byte{}
abbrev pub zero_hash : Bytes
zero_hash = replicate 32 0

abbrev hex_digit : ℕ → ℕ
hex_digit n = if ltb n 10 then 48 + n else 87 + n

-- hex.EncodeToString
unfoldable pub hex_encode : Bytes → Bytes
hex_encode [] = []
hex_encode (b ∷ bs) = hex_digit (b / 16) ∷ hex_digit (b % 16) ∷ hex_encode bs

pub record Transition : Type 0 where
  pub manifest_hash : Bytes
  pub previous_transition_hash : Bytes

pub record LatestTransition : Type 0 where
  pub transition_hash : Bytes
  pub signature : Bytes

-- `copy` into the halves of a slice of 2*HashSize bytes; both fields are arrays of HashSize bytes.
unfoldable pub marshal_transition : Transition → Bytes
marshal_transition t = t.manifest_hash ++ t.previous_transition_hash

unfoldable pub unmarshal_transition : Bytes → Result Transition
unmarshal_transition b =
    if length b == 2 * hash_size
    then ok (record { manifest_hash = take 32 b; previous_transition_hash = drop 32 b })
    else err (invalid_length (length b))

-- The receiver may be nil.
unfoldable pub marshal_latest : Option LatestTransition → Bytes
marshal_latest none = []
marshal_latest (some l) = l.transition_hash ++ l.signature

unfoldable pub unmarshal_latest : Bytes → Result LatestTransition
unmarshal_latest b =
    if leb (length b) hash_size
    then err (invalid_length (length b))
    else ok (record { transition_hash = take 32 b; signature = drop 32 b })

module _ (crypto : Crypto) where
  -- Digest
  unfoldable pub digest : Bytes → Bytes
  digest b = crypto.sum256 b

  -- Transition.Digest
  unfoldable pub digest_transition : Transition → Bytes
  unfolding digest
  digest_transition t = digest (marshal_transition t)

  -- The transition to a manifest from the last transition.
  abbrev pub transition_to : Bytes → Bytes → Transition
  transition_to last m = record { manifest_hash = digest m; previous_transition_hash = last }

  -- The loop of BuildTransitionChain, from the hash of the last transition.
  unfoldable pub build_from : Bytes → List Bytes → List Transition
  build_from last [] = []
  build_from last (m ∷ ms) =
      transition_to last m ∷ build_from (digest_transition (transition_to last m)) ms

  unfoldable pub build_transition_chain : List Bytes → List Transition
  unfolding build_from
  build_transition_chain ms = build_from zero_hash ms

-- The fields of a Go Transition are arrays of 32 bytes.
pub record IsTransition (t : Transition) : Type 0 where
  pub manifest : length t.manifest_hash ≡ 32
  pub previous : length t.previous_transition_hash ≡ 32

-- Reading back what was written gives the transition.
pub unmarshal_transition-marshal :
    (t : Transition) → IsTransition t → unmarshal_transition (marshal_transition t) ≡ ok t
unfolding unmarshal_transition marshal_transition
unmarshal_transition-marshal t h = ground (
  arith,
  length-append t.manifest_hash t.previous_transition_hash,
  take-append t.manifest_hash t.previous_transition_hash 32,
  drop-append t.manifest_hash t.previous_transition_hash 32,
)

-- What is read is what was stored: the decoder accepts one encoding of each transition.
pub marshal-unmarshal_transition :
    (b : Bytes) (t : Transition) → unmarshal_transition b ≡ ok t → marshal_transition t ≡ b
unfolding unmarshal_transition marshal_transition
marshal-unmarshal_transition b t h = ground (arith, take-append-drop 32 b)

-- A latest transition whose hash has its length and whose signature is not empty is read back.
pub unmarshal_latest-marshal :
    (l : LatestTransition)
    → length l.transition_hash ≡ 32
    → 0 < length l.signature
    → unmarshal_latest (marshal_latest (some l)) ≡ ok l
unfolding unmarshal_latest marshal_latest
unmarshal_latest-marshal l h k = ground (
  arith,
  length-append l.transition_hash l.signature,
  take-append l.transition_hash l.signature 32,
  drop-append l.transition_hash l.signature 32,
)

-- The decoder accepts one encoding of each latest transition.
pub marshal-unmarshal_latest :
    (b : Bytes) (l : LatestTransition) → unmarshal_latest b ≡ ok l → marshal_latest (some l) ≡ b
unfolding unmarshal_latest marshal_latest
marshal-unmarshal_latest b l h = ground (arith, take-append-drop 32 b)
