-- ===== src/Certcache/Cooldown.antt =====
-- internal/attestation/certcache/cached_client.go: for how long the proxy is not asked after a failure.
use contrast.Prelude.{
  is_empty, Bytes, Option, none, Bool, true, false, inl, inr, ◌⊎◌, ℕ, ◌+◌, ◌≤◌, ◌<◌, ◌≡◌, sym, ap,
  subst, ◌∙◌, arith,
}
use contrast.Certcache.{
  Reply, FetchError, Fetched, fetched, failed, get, Env, CachedHttpsGetter, proxy_retry_cooldown,
  always_revalidate, proxy_in_cooldown, proxy_deadline, redirect_to_proxy, is_answer, fetch,
  entry_at, revalidated, requested, looked_up, collected, get_by, get_context,
}
use contrast.Certcache.Waiting.{
  IsMonotone, in_cooldown, requested-SameButEntries, revalidated-SameButEntries,
  get_context-KeepsWaiting,
}
use contrast.Certcache.Proxies.{attempt, fallback, fetch-fallback, fetch_direct}

module _ {W : Type 0} (env : Env W) where
  -- What a getter becomes by calls, and while time passes between them.
  pub data Later (c : CachedHttpsGetter W) : CachedHttpsGetter W → Type 0 where
    same : Later c c
    passed :
        {d : CachedHttpsGetter W}
        → Later c d
        → (w : W) → env.now d.world ≤ env.now w
        → Later c (record d { world = w })
    called :
        {d : CachedHttpsGetter W}
        → Later c d
        → (ticked : Bool) (deadline : Option ℕ) (url : Bytes)
        → Later c (get_context env ticked d deadline url).1

  module _ (monotone : IsMonotone env) where
    -- As long as the time is not reached, a later getter still waits.
    Later-waits :
        (until : ℕ) (c d : CachedHttpsGetter W)
        → c.proxy_retry_after ≡ until
        → Later c d
        → env.now d.world < until
        → d.proxy_retry_after ≡ until
    Later-waits until c d waits same early = waits
    Later-waits until c d waits (passed {d = d'} l w forward) early =
        Later-waits until c d' waits l (omega (arith, early, forward))
    Later-waits until c d waits (called {d = d'} l ticked deadline url) early =
        let k = get_context-KeepsWaiting env monotone until ticked d' deadline url in
        let before : env.now d'.world < until = omega (arith, early, k.clock) in
        k.keeps before (Later-waits until c d' waits l before)

    -- The call has to fetch, and ends with what the direct attempt returned.
    abbrev Asks : Bool → CachedHttpsGetter W → Bytes → Type 0
    Asks b c url = (b ≡ true) ⊎ (entry_at env (get c.cache url) ≡ none)

    record IsFallback (c : CachedHttpsGetter W) (deadline : Option ℕ) (url : Bytes)
        (p : Fetched × CachedHttpsGetter W) : Type 0 where
      pub returned :
          (r : Reply)
          → (env.get_context deadline url (attempt env c deadline url).1.world).0 ≡ fetched r
          → p.0 ≡ fetched r
      pub waits :
          p.1.proxy_retry_after
          ≡ env.now (attempt env c deadline url).1.world + proxy_retry_cooldown

    requested-fetched :
        (p : Fetched × CachedHttpsGetter W) (url : Bytes) (r : Reply)
        → p.0 ≡ fetched r
        → (requested env p url).0 ≡ fetched r
    requested-fetched (fetched x, c) url r h = h
    requested-fetched (failed e, c) url r h = cc

    revalidated-fetched :
        (p : Fetched × CachedHttpsGetter W) (url : Bytes) (r : Reply)
        → p.0 ≡ fetched r
        → (revalidated env p url).0 ≡ fetched r
    revalidated-fetched (fetched x, c) url r h = h
    revalidated-fetched (failed e, c) url r h = cc

    get_by-IsFallback :
        (b : Bool) (c : CachedHttpsGetter W) (deadline : Option ℕ) (url : Bytes)
        → fetch env c deadline url ≡ fallback env c deadline url
        → Asks b c url
        → IsFallback c deadline url (get_by env b c deadline url)
    get_by-IsFallback true c deadline url e asks =
        let p = fetch env c deadline url in
        record {
          returned = λ r h. revalidated-fetched p url r (ap (λ x. x.0) e ∙ h);
          waits =
              (revalidated-SameButEntries env p url).same_time ∙ ap (λ x. x.1.proxy_retry_after) e;
        }
    get_by-IsFallback false c deadline url e (inl x) = cc
    get_by-IsFallback false c deadline url e (inr missing) =
        let p = fetch env c deadline url in
        subst (λ o. IsFallback c deadline url (looked_up env o c deadline url)) (sym missing)
          (record {
            returned = λ r h. requested-fetched p url r (ap (λ x. x.0) e ∙ h);
            waits =
                (requested-SameButEntries env p url).same_time ∙ ap (λ x. x.1.proxy_retry_after) e;
          })

    get_context-IsFallback :
        (ticked : Bool) (c : CachedHttpsGetter W) (deadline : Option ℕ) (url : Bytes)
        (e : FetchError)
        → is_empty c.collateral_proxy_base ≡ false
        → proxy_in_cooldown env c ≡ false
        → (attempt env c deadline url).0 ≡ failed e
        → is_answer env e ≡ false
        → Asks (always_revalidate env url) (collected env ticked c) url
        → IsFallback c deadline url (get_context env ticked c deadline url)
    unfolding get_context proxy_in_cooldown redirect_to_proxy proxy_deadline
    get_context-IsFallback true c deadline url e base ready failure transient asks =
        let start = collected env true c in
        let f =
          get_by-IsFallback (always_revalidate env url) start deadline url
            (fetch-fallback env start deadline url e base ready failure transient) asks in
        record { returned = f.returned; waits = f.waits }
    get_context-IsFallback false c deadline url e base ready failure transient asks =
        get_by-IsFallback (always_revalidate env url) c deadline url
          (fetch-fallback env c deadline url e base ready failure transient) asks

    pub fetch_cooldown :
        (ticked : Bool) (c : CachedHttpsGetter W) (deadline : Option ℕ) (url : Bytes)
        (e : FetchError)
        → is_empty c.collateral_proxy_base ≡ false
        → proxy_in_cooldown env c ≡ false
        → (attempt env c deadline url).0 ≡ failed e
        → is_answer env e ≡ false
        → (always_revalidate env url ≡ true)
          ⊎ (entry_at env (get (collected env ticked c).cache url) ≡ none)
        → ((r : Reply)
            → (env.get_context deadline url (attempt env c deadline url).1.world).0 ≡ fetched r
            → (get_context env ticked c deadline url).0 ≡ fetched r)
          × ((d : CachedHttpsGetter W) (deadline' : Option ℕ) (url' : Bytes)
              → Later (get_context env ticked c deadline url).1 d
              → env.now d.world
                < env.now (attempt env c deadline url).1.world + proxy_retry_cooldown
              → fetch env d deadline' url' ≡ (
                (env.get_context deadline' url' d.world).0,
                record d { world = (env.get_context deadline' url' d.world).1 },
              ))
    fetch_cooldown ticked c deadline url e base ready failure transient asks =
        let f = get_context-IsFallback ticked c deadline url e base ready failure transient asks in
        (
          f.returned,
          λ d deadline' url' later early.
              let until = env.now (attempt env c deadline url).1.world + proxy_retry_cooldown in
              let w =
                Later-waits until (get_context env ticked c deadline url).1 d f.waits later early in
              fetch_direct env d deadline' url'
                (in_cooldown env d (omega (arith, w, early)) (omega (arith, w, early))),
        )
