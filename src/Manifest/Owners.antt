-- ===== src/Manifest/Owners.antt =====
-- internal/manifest/crypto.go: the seed shares.
use contrast.Prelude.{Bytes, ok, >>=-eq-ok, ok-injective, ℕ, List, [], ◌∷◌, map, ◌≡◌, ap, sym, ◌∙◌}
use contrast.Crypto.{Crypto}
use contrast.Manifest.{SeedShare, parse_seed_share_owner_key, encrypt_seed_shares, encrypted}

-- EncryptSeedShares makes one share for each seedshare owner key, in the order of the keys.
pub map-encrypt_seed_shares :
    (crypto : Crypto) (rand : ℕ) (seed : Bytes) (keys : List Bytes) (shares : List SeedShare)
    → encrypt_seed_shares crypto rand seed keys ≡ ok shares
    → map (λ s. s.public_key) shares ≡ keys
unfolding encrypt_seed_shares
map-encrypt_seed_shares crypto rand seed [] shares e =
    ap (map (λ s. s.public_key)) (sym (ok-injective e))
map-encrypt_seed_shares crypto rand seed (hex ∷ keys) shares e =
    let (key, _, e1) = >>=-eq-ok (parse_seed_share_owner_key crypto hex) _ e in
    let (text, _, e2) = >>=-eq-ok (encrypted crypto (crypto.encrypt_oaep rand key seed)) _ e1 in
    let (rest, tail, e3) = >>=-eq-ok (encrypt_seed_shares crypto rand seed keys) _ e2 in
    ap (map (λ s. s.public_key)) (sym (ok-injective e3))
    ∙ ap (λ l. hex ∷ l) (map-encrypt_seed_shares crypto rand seed keys rest tail)
