-- ===== src/History/Latest.antt =====
-- The signed latest transition of internal/history/history.go.
use contrast.Prelude.{
  Bytes, ok, ◌≡◌, ◌≢◌, refl, sym, ◌∙◌, ap, ℕ, ◌<◌, length, Option, none, some, true, ok-injective,
  >>=-eq-ok, subst,
}
use contrast.Crypto.{Crypto, CryptoLaws}
use contrast.Store.{Store, StoreLaws, current}
use contrast.History.Encoding.{
  LatestTransition, marshal_latest, unmarshal_latest, unmarshal_latest-marshal,
}
use contrast.History.{History, latest_key, get_latest, swap_latest, set_latest}

module _ {S : Type 0} (store : Store S) (crypto : Crypto) where
  -- What a successful SetLatest has done.
  pub record IsLatestSet (old : Option LatestTransition) (hash key : Bytes) (new : LatestTransition)
      (h h' : History S) : Type 0 where
    pub hash_set : new.transition_hash ≡ hash
    pub signed : crypto.verify_asn1 (crypto.public_key key) hash new.signature ≡ true
    pub nonempty : 0 < length new.signature
    pub expected : current (store.get latest_key h.store) ≡ ok (marshal_latest old)
    pub stored : store.get latest_key h'.store ≡ ok (marshal_latest (some new))
    pub cache_kept : h'.cache ≡ h.cache

  pub get_latest_of_stored :
      (key : Bytes) (l : LatestTransition) (h : History S) {b : Bytes}
      → store.get latest_key h.store ≡ ok b
      → unmarshal_latest b ≡ ok l
      → crypto.verify_asn1 key l.transition_hash l.signature ≡ true
      → get_latest store crypto key h ≡ ok l
  unfolding get_latest
  get_latest_of_stored key l h g u v = rw (g, u, v)

  module _ (laws : StoreLaws store) (crypto_laws : CryptoLaws crypto) where
    swap_latest_lem :
        (r : ℕ) (old : Option LatestTransition) (hash key : Bytes) (o : Option Bytes)
        (h : History S) {new : LatestTransition}
        → crypto.sign_asn1 r key hash ≡ o
        → (swap_latest store crypto old hash o h).0 ≡ ok new
        → IsLatestSet old hash key new h (swap_latest store crypto old hash o h).1
    unfolding swap_latest
    swap_latest_lem r old hash key none h s e = cc
    swap_latest_lem r old hash key (some sig) h {new} s e =
        let l : LatestTransition = record { transition_hash = hash; signature = sig } in
        let (_, swapped, same) =
          >>=-eq-ok
            (store.compare_and_swap latest_key (marshal_latest old) (marshal_latest (some l))
              h.store).0
            (λ _. ok l) e in
        subst (λ n. IsLatestSet old hash key n h (swap_latest store crypto old hash (some sig) h).1)
          (ok-injective same)
          (record {
            hash_set = refl;
            signed = crypto_laws.verify-sign r key hash sig s;
            nonempty = crypto_laws.sign_nonempty r key hash sig s;
            expected =
                laws.cas_expected latest_key (marshal_latest old) (marshal_latest (some l)) h.store
                  swapped;
            stored =
                laws.get-cas latest_key (marshal_latest old) (marshal_latest (some l)) h.store
                  swapped;
            cache_kept = refl;
          })

    swap_latest-get_ne :
        (old : Option LatestTransition) (hash k : Bytes) (o : Option Bytes) (h : History S)
        → k ≢ latest_key
        → store.get k (swap_latest store crypto old hash o h).1.store ≡ store.get k h.store
    unfolding swap_latest
    swap_latest-get_ne old hash k none h ne = refl
    swap_latest-get_ne old hash k (some sig) h ne =
        laws.get-cas_ne latest_key k (marshal_latest old) _ h.store (λ e. ne (sym e))

    -- SetLatest touches one key of the store.
    pub set_latest-get_ne :
        (r : ℕ) (old : Option LatestTransition) (hash key k : Bytes) (h : History S)
        → k ≢ latest_key
        → store.get k (set_latest store crypto r old hash key h).1.store ≡ store.get k h.store
    unfolding set_latest
    set_latest-get_ne r old hash key k h ne =
        swap_latest-get_ne old hash k (crypto.sign_asn1 r key hash) h ne

    -- A successful SetLatest: the stored value was the expected one, it is now the new transition,
    -- and the signature verifies under the public key.
    pub set_latest_lem :
        (r : ℕ) (old : Option LatestTransition) (hash key : Bytes) (h : History S)
        {new : LatestTransition}
        → (set_latest store crypto r old hash key h).0 ≡ ok new
        → IsLatestSet old hash key new h (set_latest store crypto r old hash key h).1
    unfolding set_latest
    set_latest_lem r old hash key h e =
        swap_latest_lem r old hash key (crypto.sign_asn1 r key hash) h refl e

    -- What a successful SetLatest has stored for a hash of 32 bytes, GetLatest returns, and verifies
    -- under the same key.
    pub get_latest-set_latest :
        (r : ℕ) (old : Option LatestTransition) (hash key : Bytes) (h : History S)
        {new : LatestTransition}
        → length hash ≡ 32
        → (set_latest store crypto r old hash key h).0 ≡ ok new
        → get_latest store crypto
            (crypto.public_key key)
            (set_latest store crypto r old hash key h).1
          ≡ ok new
    unfolding get_latest
    get_latest-set_latest r old hash key h {new} l e =
        let p = set_latest_lem r old hash key h e in
        get_latest_of_stored (crypto.public_key key) new
          (set_latest store crypto r old hash key h).1 p.stored
          (unmarshal_latest-marshal new (ap length p.hash_set ∙ l) p.nonempty)
          (ap (λ k. crypto.verify_asn1 (crypto.public_key key) k new.signature) p.hash_set
            ∙ p.signed)

    -- Of two writes that expect the same old transition, where the first succeeded with another one,
    -- which is still stored when the second comes, the second fails.
    pub set_latest_twice :
        (r r' : ℕ) (old : Option LatestTransition) (hash hash' key key' : Bytes) (h h' : History S)
        {new : LatestTransition}
        → (set_latest store crypto r old hash key h).0 ≡ ok new
        → marshal_latest old ≢ marshal_latest (some new)
        → store.get latest_key h'.store
          ≡ store.get latest_key (set_latest store crypto r old hash key h).1.store
        → (new' : LatestTransition) → (set_latest store crypto r' old hash' key' h').0 ≢ ok new'
    set_latest_twice r r' old hash hash' key key' h h' {new} e ne same new' e' =
        let p = set_latest_lem r old hash key h e in
        let q = set_latest_lem r' old hash' key' h' e' in
        ne (ok-injective (sym q.expected ∙ ap current (same ∙ p.stored)))
