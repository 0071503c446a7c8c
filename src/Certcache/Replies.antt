-- ===== src/Certcache/Replies.antt =====
-- internal/attestation/certcache/cached_client.go: what comes out of the cache.
use contrast.Prelude.{Bytes, Option, some, ℕ, ◌≡◌}
use contrast.Certcache.{
  Reply, FetchError, Fetched, fetched, failed, get, Env, CachedHttpsGetter, redirect_to_proxy,
  entry_at, get_context,
}

module _ {W : Type 0} (env : Env W) where
  -- The behaviour of encoding/json: what was marshalled is read back.
  abbrev pub JsonLaws : Type 0
  JsonLaws =
      (r : Reply) (written : Bytes) → env.marshal r ≡ some written → env.unmarshal written ≡ some r

  module _ (Serves : Bytes → Reply → Type 0) where
    -- A getter that returns, for a URL or for the address of its proxy, what is served for the URL.
    pub record IsFaithful : Type 0 where
      pub direct :
          (deadline : Option ℕ) (url : Bytes) (w : W) (r : Reply)
          → (env.get_context deadline url w).0 ≡ fetched r
          → Serves url r
      pub proxied :
          (c : CachedHttpsGetter W) (deadline : Option ℕ) (url : Bytes) (w : W) (r : Reply)
          → (env.get_context deadline (redirect_to_proxy env c url) w).0 ≡ fetched r
          → Serves url r

    -- Every entry is a reply that was served for its URL.
    abbrev pub IsSound : CachedHttpsGetter W → Type 0
    IsSound c = (url : Bytes) (r : Reply) → entry_at env (get c.cache url) ≡ some r → Serves url r

    -- A result that is a failure, or a reply that was served for a URL.
    pub data IsServed (url : Bytes) : Fetched → Type 0 where
      serving : (r : Reply) → Serves url r → IsServed url (fetched r)
      failing : (e : FetchError) → IsServed url (failed e)

    abbrev Is : Bytes → Fetched × CachedHttpsGetter W → Type 0
    Is url p = ((r : Reply) → p.0 ≡ fetched r → Serves url r) × IsSound p.1
