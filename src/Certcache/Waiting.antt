-- ===== src/Certcache/Waiting.antt =====
-- internal/attestation/certcache/cached_client.go: a call keeps the time at which the
-- proxy is asked again, while that has not come.
use contrast.Prelude.{
  is_empty, Bytes, Option, none, some, Bool, true, false, ◌||◌, if◌then◌else◌, ℕ, ◌≤◌, ◌<◌, ◌≡◌,
  refl, sym, ap, subst, ◌∙◌, arith,
}
use contrast.Certcache.{
  Reply, FetchError, Fetched, fetched, failed, get, Env, CachedHttpsGetter, always_revalidate,
  proxy_in_cooldown, proxy_deadline, redirect_to_proxy, upstream, is_answer, after_failure,
  after_proxy, fetch, remember, entry_at, revalidated, requested, looked_up, collected, get_by,
  get_context,
}
use contrast.Certcache.Proxies.{attempt, fetch_direct}

module _ {W : Type 0} (env : Env W) where
  -- The clock does not go back while something is fetched.
  abbrev pub IsMonotone : Type 0
  IsMonotone =
      (deadline : Option ℕ) (url : Bytes) (w : W)
      → env.now w ≤ env.now (env.get_context deadline url w).1

  pub in_cooldown :
      (c : CachedHttpsGetter W)
      → 0 < c.proxy_retry_after
      → env.now c.world < c.proxy_retry_after
      → proxy_in_cooldown env c ≡ true
  unfolding proxy_in_cooldown
  in_cooldown c set early = ground arith

  -- Getters that differ at most in their entries.
  pub record SameButEntries (c d : CachedHttpsGetter W) : Type 0 where
    pub same_world : d.world ≡ c.world
    pub same_time : d.proxy_retry_after ≡ c.proxy_retry_after

  remember-SameButEntries :
      (o : Option Bytes) (url : Bytes) (c : CachedHttpsGetter W)
      → SameButEntries c (remember env o url c)
  remember-SameButEntries none url c = record { same_world = refl; same_time = refl }
  remember-SameButEntries (some b) url c = record { same_world = refl; same_time = refl }

  pub requested-SameButEntries :
      (p : Fetched × CachedHttpsGetter W) (url : Bytes) → SameButEntries p.1 (requested env p url).1
  requested-SameButEntries (fetched r, c) url = remember-SameButEntries (env.marshal r) url c
  requested-SameButEntries (failed e, c) url = record { same_world = refl; same_time = refl }

  pub revalidated-SameButEntries :
      (p : Fetched × CachedHttpsGetter W) (url : Bytes)
      → SameButEntries p.1 (revalidated env p url).1
  revalidated-SameButEntries (fetched r, c) url = remember-SameButEntries (env.marshal r) url c
  revalidated-SameButEntries (failed e, c) url = record { same_world = refl; same_time = refl }

  collected-SameButEntries :
      (ticked : Bool) (c : CachedHttpsGetter W) → SameButEntries c (collected env ticked c)
  collected-SameButEntries true c = record { same_world = refl; same_time = refl }
  collected-SameButEntries false c = record { same_world = refl; same_time = refl }

  -- A step during which the clock does not go back, and which does not end a wait for the proxy.
  pub record KeepsWaiting (until : ℕ) (c d : CachedHttpsGetter W) : Type 0 where
    pub clock : env.now c.world ≤ env.now d.world
    pub keeps : env.now c.world < until → c.proxy_retry_after ≡ until → d.proxy_retry_after ≡ until

  same-KeepsWaiting :
      (until : ℕ) (c d e : CachedHttpsGetter W)
      → SameButEntries d e
      → KeepsWaiting until c d
      → KeepsWaiting until c e
  same-KeepsWaiting until c d e s k = record {
    clock = subst (λ w. env.now c.world ≤ env.now w) (sym s.same_world) k.clock;
    keeps = λ early waits. s.same_time ∙ k.keeps early waits;
  }

  before-KeepsWaiting :
      (until : ℕ) (c d e : CachedHttpsGetter W)
      → SameButEntries c d
      → KeepsWaiting until d e
      → KeepsWaiting until c e
  before-KeepsWaiting until c d e s k = record {
    clock = subst (λ w. env.now w ≤ env.now e.world) s.same_world k.clock;
    keeps = λ early waits.
        k.keeps (subst (λ w. env.now w < until) (sym s.same_world) early) (s.same_time ∙ waits);
  }

  module _ (monotone : IsMonotone) where
    -- The two cases of the attempt.
    fetch-clock :
        (c : CachedHttpsGetter W) (deadline : Option ℕ) (url : Bytes)
        → env.now c.world ≤ env.now (fetch env c deadline url).1.world
    unfolding fetch
    fetch-clock c deadline url = by (is_empty c.collateral_proxy_base || proxy_in_cooldown env c)
      where
        tried : CachedHttpsGetter W
        tried = (attempt env c deadline url).1

        by_answer :
            (b : Bool) (e : FetchError)
            → env.now c.world ≤ env.now (after_failure env b e tried deadline url).1.world
        by_answer true e =
            monotone (some (proxy_deadline env c deadline)) (redirect_to_proxy env c url) c.world
        by_answer false e = omega (
          arith,
          monotone (some (proxy_deadline env c deadline)) (redirect_to_proxy env c url) c.world,
          monotone deadline url tried.world,
        )

        by_reply :
            (f : Fetched)
            → env.now c.world ≤ env.now (after_proxy env (f, tried) deadline url).1.world
        by_reply (fetched r) =
            monotone (some (proxy_deadline env c deadline)) (redirect_to_proxy env c url) c.world
        by_reply (failed e) = by_answer (is_answer env e) e

        by :
            (b : Bool)
            → env.now c.world
              ≤ env.now
                  (if b
                    then upstream env c deadline url
                    else after_proxy env (attempt env c deadline url) deadline url).1.world
        by true = monotone deadline url c.world
        by false = by_reply (attempt env c deadline url).0

    fetch-KeepsWaiting :
        (until : ℕ) (c : CachedHttpsGetter W) (deadline : Option ℕ) (url : Bytes)
        → KeepsWaiting until c (fetch env c deadline url).1
    fetch-KeepsWaiting until c deadline url = record {
      clock = fetch-clock c deadline url;
      keeps = λ early waits.
          ap (λ p. p.1.proxy_retry_after)
            (fetch_direct env c deadline url
              (in_cooldown c (omega (arith, early, waits)) (omega (arith, early, waits))))
          ∙ waits;
    }

    looked_up-KeepsWaiting :
        (until : ℕ) (o : Option Reply) (c : CachedHttpsGetter W) (deadline : Option ℕ) (url : Bytes)
        → KeepsWaiting until c (looked_up env o c deadline url).1
    looked_up-KeepsWaiting until (some r) c deadline url = record {
      clock = omega arith;
      keeps = λ early waits. waits;
    }
    looked_up-KeepsWaiting until none c deadline url =
        let p = fetch env c deadline url in
        same-KeepsWaiting until c p.1 (requested env p url).1 (requested-SameButEntries p url)
          (fetch-KeepsWaiting until c deadline url)

    get_by-KeepsWaiting :
        (until : ℕ) (b : Bool) (c : CachedHttpsGetter W) (deadline : Option ℕ) (url : Bytes)
        → KeepsWaiting until c (get_by env b c deadline url).1
    get_by-KeepsWaiting until true c deadline url =
        let p = fetch env c deadline url in
        same-KeepsWaiting until c p.1 (revalidated env p url).1 (revalidated-SameButEntries p url)
          (fetch-KeepsWaiting until c deadline url)
    get_by-KeepsWaiting until false c deadline url =
        looked_up-KeepsWaiting until (entry_at env (get c.cache url)) c deadline url

    pub get_context-KeepsWaiting :
        (until : ℕ) (ticked : Bool) (c : CachedHttpsGetter W) (deadline : Option ℕ) (url : Bytes)
        → KeepsWaiting until c (get_context env ticked c deadline url).1
    unfolding get_context
    get_context-KeepsWaiting until ticked c deadline url =
        let start = collected env ticked c in
        let b = always_revalidate env url in
        before-KeepsWaiting until c start (get_by env b start deadline url).1
          (collected-SameButEntries ticked c) (get_by-KeepsWaiting until b start deadline url)
