-- ===== src/Certcache/Proxies.antt =====
-- internal/attestation/certcache/cached_client.go: when the proxy is asked, and what an outage costs.
use contrast.Prelude.{
  is_empty, Bytes, Option, some, Bool, true, false, ◌||◌, ℕ, ◌+◌, if◌then◌else◌, ◌≡◌, refl, ap, ◌∙◌,
}
use contrast.Certcache.{
  Reply, FetchError, Fetched, fetched, failed, get, Env, CachedHttpsGetter, proxy_retry_cooldown,
  redirect_to_proxy, proxy_in_cooldown, proxy_deadline, upstream, is_answer, after_failure,
  after_proxy, fetch, entry_at,
}

module _ {W : Type 0} (env : Env W) where
  -- The attempt by way of the proxy.
  abbrev pub attempt : CachedHttpsGetter W → Option ℕ → Bytes → Fetched × CachedHttpsGetter W
  attempt c deadline url =
      upstream env c (some (proxy_deadline env c deadline)) (redirect_to_proxy env c url)

  -- What is fetched when an attempt has failed without an answer.
  abbrev pub fallback : CachedHttpsGetter W → Option ℕ → Bytes → Fetched × CachedHttpsGetter W
  fallback c deadline url =
      let c' = (attempt c deadline url).1 in
      upstream env (record c' { proxy_retry_after = env.now c'.world + proxy_retry_cooldown })
        deadline url

  pub fetch-fallback :
      (c : CachedHttpsGetter W) (deadline : Option ℕ) (url : Bytes) (e : FetchError)
      → is_empty c.collateral_proxy_base ≡ false
      → proxy_in_cooldown env c ≡ false
      → (attempt c deadline url).0 ≡ failed e
      → is_answer env e ≡ false
      → fetch env c deadline url ≡ fallback c deadline url
  unfolding fetch
  fetch-fallback c deadline url e base ready failure transient =
      let c' = (attempt c deadline url).1 in
      let tried : (is_empty c.collateral_proxy_base || proxy_in_cooldown env c) ≡ false =
        ap (λ b. b || proxy_in_cooldown env c) base ∙ ready in
      ap
        (λ b.
          if b
          then upstream env c deadline url
          else after_proxy env (attempt c deadline url) deadline url)
        tried
      ∙ ap (λ f. after_proxy env (f, c') deadline url) failure
      ∙ ap (λ b. after_failure env b e c' deadline url) transient

  -- A getter that waits for its proxy asks directly.
  pub fetch_direct :
      (c : CachedHttpsGetter W) (deadline : Option ℕ) (url : Bytes)
      → proxy_in_cooldown env c ≡ true
      → fetch env c deadline url ≡ upstream env c deadline url
  unfolding fetch
  fetch_direct c deadline url waiting =
      skip (is_empty c.collateral_proxy_base) (proxy_in_cooldown env c) waiting
    where
      skip :
          (a b : Bool)
          → b ≡ true
          → (if a || b
              then upstream env c deadline url
              else after_proxy env (attempt c deadline url) deadline url)
            ≡ upstream env c deadline url
      skip true b h = refl
      skip false true h = refl
      skip false false h = cc

  abbrev Holds : Bytes → Fetched × CachedHttpsGetter W → Type 0
  Holds url p = (r : Reply) → p.0 ≡ fetched r → entry_at env (get p.1.cache url) ≡ some r
