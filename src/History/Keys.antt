-- ===== src/History/Keys.antt =====
-- The keys under which internal/history/history.go stores are different keys.
use contrast.Prelude.{
  Bytes, ◌≡◌, ◌≢◌, ap, arith, ℕ, zero, suc, ◌/◌, ◌<◌, length, [], ◌∷◌, ltb, if◌then◌else◌, ◌+◌, All,
}
use contrast.History.Encoding.{hex_encode}
use contrast.History.{content_key, manifests, policies, transitions, latest_key}

abbrev nth : Bytes → ℕ → ℕ
nth [] i = 0
nth (x ∷ b) zero = x
nth (x ∷ b) (suc i) = nth b i

pub manifests_ne_transitions : (a b : Bytes) → content_key manifests a ≢ content_key transitions b
manifests_ne_transitions a b e = absurd (omega (arith, ap (λ k. nth k 0) e))

pub manifests_ne_latest : (a : Bytes) → content_key manifests a ≢ latest_key
manifests_ne_latest a e = absurd (omega (arith, ap (λ k. nth k 0) e))

pub policies_ne_latest : (a : Bytes) → content_key policies a ≢ latest_key
policies_ne_latest a e = absurd (omega (arith, ap (λ k. nth k 0) e))

-- No hex digit is an l.
digit_ne : (n : ℕ) → (if ltb n 10 then 48 + n else 87 + n) ≡ 108 → n ≡ 21
digit_ne n h = ground arith

pub transitions_ne_latest :
    (a : Bytes) → length a ≡ 32 → All (λ x. x < 256) a → content_key transitions a ≢ latest_key
unfolding hex_encode
transitions_ne_latest [] l b e = absurd (omega arith)
transitions_ne_latest (x ∷ a) l (hx, b) e =
    absurd (omega (arith, digit_ne (x / 16) (ap (λ k. nth k 12) e)))
