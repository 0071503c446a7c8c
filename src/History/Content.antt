-- ===== src/History/Content.antt =====
-- The content-addressed part of internal/history/history.go: what a read may return.
use contrast.Prelude.{
  Bytes, bytes_equal, bytes_equal_iff, lookup, lookup-insert, lookup-insert_self, Result, ok, err,
  Option, none, some, ◌≡◌, ◌≢◌, refl, ap, ◌∙◌, arith, Bool-cases, eq_of_bytes_equal, inl, inr, sym,
}
use contrast.Crypto.{Crypto}
use contrast.Store.{Store, StoreLaws}
use contrast.History.Encoding.{digest}
use contrast.History.{
  History, content_key, new_with_store, add_to_cache, check_content, or_fetch, get_contentaddressed,
  finish_set, set_contentaddressed,
}

module _ {S : Type 0} (store : Store S) (crypto : Crypto) where
  -- What is cached under a hash has that hash.
  pub record CacheIsSound (h : History S) : Type 0 where
    pub sound : (hash b : Bytes) → lookup hash h.cache ≡ some b → digest crypto b ≡ hash

  pub new_with_store-CacheIsSound : (s : S) → CacheIsSound (new_with_store store crypto s)
  unfolding new_with_store lookup
  new_with_store-CacheIsSound s = record { sound = λ hash b e. cc }

  pub add_to_cache-CacheIsSound :
      (hash b : Bytes) (h : History S)
      → digest crypto b ≡ hash
      → CacheIsSound h
      → CacheIsSound (add_to_cache store crypto hash b h)
  unfolding add_to_cache
  add_to_cache-CacheIsSound hash b h e v = record {
    sound = λ hash' b' p.
        ground
          (arith, lookup-insert hash hash' b h.cache, bytes_equal_iff hash hash', v.sound hash' b');
  }

  -- What a read returns, and the state that it leaves.
  pub record IsRead (hash : Bytes) (r : Result Bytes) (h : History S) : Type 0 where
    pub content : (b : Bytes) → r ≡ ok b → digest crypto b ≡ hash
    pub cache_sound : CacheIsSound h

  check_content-IsRead :
      (hash : Bytes) (r : Result Bytes) (h : History S)
      → CacheIsSound h
      → let (r', h') = check_content store crypto hash r h in IsRead hash r' h'
  unfolding check_content
  check_content-IsRead hash (err e) h v = record { content = λ b p. cc; cache_sound = v }
  check_content-IsRead hash (ok b) h v = elim (Bool-cases (bytes_equal hash (digest crypto b))) [
    | inl same ↦
        let e = sym (eq_of_bytes_equal hash (digest crypto b) same) in
        rw same (record {
          content = λ b' p. ground arith;
          cache_sound = unfold add_to_cache in add_to_cache-CacheIsSound hash b h e v;
        })
    | inr other ↦ rw other (record { content = λ b' p. cc; cache_sound = v })
  ]

  or_fetch-IsRead :
      (path hash : Bytes) (o : Option Bytes) (h : History S)
      → ((b : Bytes) → o ≡ some b → digest crypto b ≡ hash)
      → CacheIsSound h
      → let (r, h') = or_fetch store crypto path hash o h in IsRead hash r h'
  unfolding or_fetch
  or_fetch-IsRead path hash (some b) h s v = record {
    content = λ b' p. ground (arith, s b refl);
    cache_sound = v;
  }
  or_fetch-IsRead path hash none h s v =
      check_content-IsRead hash (store.get (content_key path hash) h.store) h v

  -- With a sound cache, a read returns nothing but content of the hash that was asked for, whatever
  -- the store holds and under whatever path, and it leaves a sound cache.
  pub get_contentaddressed-IsRead :
      (path hash : Bytes) (h : History S)
      → CacheIsSound h
      → let (r, h') = get_contentaddressed store crypto path hash h in IsRead hash r h'
  unfolding get_contentaddressed
  get_contentaddressed-IsRead path hash h v =
      or_fetch-IsRead path hash (lookup hash h.cache) h (v.sound hash) v

  check_content-store :
      (hash : Bytes) (r : Result Bytes) (h : History S)
      → (check_content store crypto hash r h).1.store ≡ h.store
  unfolding check_content
  check_content-store hash (err e) h = refl
  check_content-store hash (ok b) h = ground arith

  or_fetch-store :
      (path hash : Bytes) (o : Option Bytes) (h : History S)
      → (or_fetch store crypto path hash o h).1.store ≡ h.store
  unfolding or_fetch
  or_fetch-store path hash (some b) h = refl
  or_fetch-store path hash none h =
      check_content-store hash (store.get (content_key path hash) h.store) h

  -- A read does not change the store.
  pub get_contentaddressed-store :
      (path hash : Bytes) (h : History S)
      → (get_contentaddressed store crypto path hash h).1.store ≡ h.store
  unfolding get_contentaddressed
  get_contentaddressed-store path hash h = or_fetch-store path hash (lookup hash h.cache) h

  pub set_contentaddressed-CacheIsSound :
      (path b : Bytes) (h : History S)
      → CacheIsSound h
      → CacheIsSound (set_contentaddressed store crypto path b h).1
  unfolding set_contentaddressed
  set_contentaddressed-CacheIsSound path b h v =
      go (store.set (content_key path (digest crypto b)) b h.store)
    where
      go :
          (r : Result (Unit {0}) × S)
          → CacheIsSound (finish_set store crypto (digest crypto b) b r h).1
      go (ok _, s) =
          add_to_cache-CacheIsSound (digest crypto b) b (record h { store = s }) refl
            (record { sound = v.sound })
      go (err e, s) = record { sound = v.sound }

  -- A successful write returns the digest of what was written, and stored it under that name.
  pub set_contentaddressed_lem :
      StoreLaws store
      → (path b : Bytes) (h : History S) {hash : Bytes}
      → (set_contentaddressed store crypto path b h).0 ≡ ok hash
      → (hash ≡ digest crypto b)
        × (lookup hash (set_contentaddressed store crypto path b h).1.cache ≡ some b)
        × (store.get (content_key path hash) (set_contentaddressed store crypto path b h).1.store
            ≡ ok b)
  unfolding set_contentaddressed
  set_contentaddressed_lem laws path b h =
      go (store.set (content_key path (digest crypto b)) b h.store)
        (laws.get-set (content_key path (digest crypto b)) b h.store)
    where
      go :
          (r : Result (Unit {0}) × S) {hash : Bytes}
          → (r.0 ≡ ok tt → store.get (content_key path (digest crypto b)) r.1 ≡ ok b)
          → (finish_set store crypto (digest crypto b) b r h).0 ≡ ok hash
          → (hash ≡ digest crypto b)
            × (lookup hash (finish_set store crypto (digest crypto b) b r h).1.cache ≡ some b)
            × (store.get
                  (content_key path hash)
                  (finish_set store crypto (digest crypto b) b r h).1.store
                ≡ ok b)
      go (ok _, s) {hash} stored p =
          ground (arith, stored refl, lookup-insert_self (digest crypto b) b h.cache)
      go (err e, s) stored p = cc

  check_content_ok :
      (hash b : Bytes) (r : Result Bytes) (h : History S)
      → r ≡ ok b
      → digest crypto b ≡ hash
      → (check_content store crypto hash r h).0 ≡ ok b
  unfolding check_content
  check_content_ok hash b (err e) h p q = cc
  check_content_ok hash b (ok c) h p q = ground (arith, bytes_equal_iff hash (digest crypto c))

  -- What a process has written, the next one reads: after a successful write, over a store that keeps
  -- its promises, the content is found without the cache.
  pub get-set_restart :
      StoreLaws store
      → (path b : Bytes) (h : History S) {hash : Bytes}
      → (set_contentaddressed store crypto path b h).0 ≡ ok hash
      → let s = (set_contentaddressed store crypto path b h).1.store in
        (get_contentaddressed store crypto path hash (new_with_store store crypto s)).0 ≡ ok b
  unfolding get_contentaddressed new_with_store or_fetch lookup
  get-set_restart laws path b h {hash} p =
      let (same, cached, stored) = set_contentaddressed_lem laws path b h p in
      check_content_ok hash b _ _ stored (sym same)

  -- A read of this hash would return this content.
  abbrev pub Finds : Bytes → Bytes → Bytes → History S → Type 0
  Finds path hash b h = (get_contentaddressed store crypto path hash h).0 ≡ ok b

  check_content-Finds :
      (path hash hash' b : Bytes) (r : Result Bytes) (h : History S)
      → lookup hash h.cache ≡ none
      → store.get (content_key path hash) h.store ≡ r
      → Finds path hash' b h
      → Finds path hash' b (check_content store crypto hash r h).1
  unfolding check_content get_contentaddressed
  check_content-Finds path hash hash' b (err e) h m g f = f
  check_content-Finds path hash hash' b (ok d) h m g f = ground (
    arith,
    bytes_equal_iff hash (digest crypto d),
    bytes_equal_iff hash hash',
    lookup-insert hash hash' d h.cache,
  )

  or_fetch-Finds :
      (path hash hash' b : Bytes) (o : Option Bytes) (h : History S)
      → lookup hash h.cache ≡ o
      → Finds path hash' b h
      → Finds path hash' b (or_fetch store crypto path hash o h).1
  unfolding or_fetch
  or_fetch-Finds path hash hash' b (some d) h m f = f
  or_fetch-Finds path hash hash' b none h m f =
      check_content-Finds path hash hash' b (store.get (content_key path hash) h.store) h m refl f

  -- What a state finds under a path stays found there after any read of the same path.
  pub get_contentaddressed-Finds :
      (path hash hash' b : Bytes) (h : History S)
      → Finds path hash' b h
      → Finds path hash' b (get_contentaddressed store crypto path hash h).1
  get_contentaddressed-Finds path hash hash' b h f =
      unfold get_contentaddressed in or_fetch-Finds path hash hash' b (lookup hash h.cache) h refl f

  finish_set-store :
      (hash b : Bytes) (r : Result (Unit {0}) × S) (h : History S)
      → (finish_set store crypto hash b r h).1.store ≡ r.1
  unfolding finish_set
  finish_set-store hash b (ok _, s) h = refl
  finish_set-store hash b (err e, s) h = refl

  -- A write touches one key of the store.
  pub get-set_contentaddressed_ne :
      StoreLaws store
      → (path b k : Bytes) (h : History S) → k ≢ content_key path (digest crypto b)
      → store.get k (set_contentaddressed store crypto path b h).1.store ≡ store.get k h.store
  unfolding set_contentaddressed
  get-set_contentaddressed_ne laws path b k h ne =
      let key = content_key path (digest crypto b) in
      ap (store.get k) (finish_set-store (digest crypto b) b (store.set key b h.store) h)
      ∙ laws.get-set_ne key k b h.store (λ e. ne (sym e))
