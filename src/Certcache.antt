-- ===== src/Certcache.antt =====
-- internal/attestation/certcache: the cache before the services that hand out certificates and
-- revocation lists. cached_client.go is the cache with its proxy, retry_client.go decides what is
-- retried, and internal/memstore/memstore.go keeps the entries. The network, with the retries below,
-- and the clock are in a state of the world. Log messages are not modelled.
pub mod Replies
pub mod Proxies
pub mod Waiting
pub mod Cooldown
use contrast.Prelude.{
  has_prefix, is_empty, Bytes, codes, bytes_equal, Map, lookup, insert, Result, ok, err, Option,
  none, some, Bool, true, false, not, ◌&&◌, ◌||◌, ℕ, zero, suc, ◌+◌, ◌-◌, ◌*◌, ◌/◌, List, [], ◌∷◌,
  ◌++◌, length, drop, ltb, leb, ◌==◌, if◌then◌else◌,
}

-- The headers, as text, and the body.
pub record Reply : Type 0 where
  pub header : Bytes
  pub body : Bytes

-- An httpError with its status code, or an error below HTTP.
pub data FetchError : Type 0 where
  http_error : ℕ → FetchError
  transport : ℕ → FetchError

pub data Fetched : Type 0 where
  fetched : Reply → Fetched
  failed : FetchError → Fetched

-- memstore.Store
pub record Store : Type 0 where
  pub m : Map Bytes

abbrev pub get : Store → Bytes → Option Bytes
get s key = lookup key s.m

abbrev pub set : Store → Bytes → Bytes → Store
set s key value = record { m = insert key value s.m }

abbrev pub clear : Store → Store
clear s = record { m = [] }

-- shouldRetry
unfoldable pub should_retry : FetchError → Bool
should_retry (http_error code) = leb 500 code
should_retry (transport e) = true

-- The end of fetchOnce: what is made of a response that was read whole.
unfoldable pub check_status : ℕ → Reply → Fetched
check_status code r = if code == 200 || code == 203 then fetched r else failed (http_error code)

-- transientStatus
unfoldable pub transient_status : ℕ → Bool
transient_status code = leb 500 code || code == 429

abbrev pub is_letter : ℕ → Bool
is_letter c = (leb b'A' c && leb c b'Z') || (leb b'a' c && leb c b'z')

-- [A-Za-z]*/crl$ : letters, and then just this end.
unfoldable pub letters_crl : Bytes → Bool
letters_crl [] = false
letters_crl (c ∷ s) = bytes_equal (c ∷ s) (codes "/crl") || (is_letter c && letters_crl s)

-- The path of a URL, and its query, as net/url reads them.
pub record Url : Type 0 where
  pub path : Bytes
  pub raw_query : Bytes

abbrev pub snp_crl_path : Bytes → Bool
snp_crl_path path = has_prefix (codes "/vcek/v1/") path && letters_crl (drop 9 path)

abbrev pub tdx_root_crl_path : Bytes → Bool
tdx_root_crl_path path = bytes_equal path (codes "/IntelSGXRootCA.der")

abbrev pub tdx_base_path : Bytes → Bool
tdx_base_path path =
    has_prefix (codes "/sgx/certification/v4") path
    || has_prefix (codes "/tdx/certification/v4") path

abbrev pub revalidates : Option Url → Bool
revalidates none = false
revalidates (some u) = snp_crl_path u.path || (tdx_root_crl_path u.path || tdx_base_path u.path)

-- In nanoseconds.
abbrev pub retry_interval : ℕ
retry_interval = 5_000_000_000

abbrev pub retry_attempts_proxy : ℕ
retry_attempts_proxy = 5

abbrev pub proxy_retry_cooldown : ℕ
proxy_retry_cooldown = 120_000_000_000

-- What the cache takes from elsewhere: net/url, encoding/json, the clock, and the getter that it
-- embeds, under a deadline, if there is one.
pub record Env (W : Type 0) : Type 0 where
  pub parse_url : Bytes → Option Url
  pub marshal : Reply → Option Bytes
  pub unmarshal : Bytes → Option Reply
  pub now : W → ℕ
  pub get_context : Option ℕ → Bytes → W → Fetched × W

pub record CachedHttpsGetter (W : Type 0) : Type 0 where
  pub world : W
  pub cache : Store
  pub collateral_proxy_base : Bytes
  pub proxy_retry_after : ℕ

module _ {W : Type 0} (env : Env W) where
  -- alwaysRevalidate
  unfoldable pub always_revalidate : Bytes → Bool
  unfolding letters_crl
  always_revalidate raw_url = revalidates (env.parse_url raw_url)

  abbrev pub with_query : Bytes → Bytes → Bytes
  with_query redirected [] = redirected
  with_query redirected (c ∷ query) = redirected ++ (codes "?" ++ (c ∷ query))

  abbrev pub redirected : Bytes → Bytes → Option Url → Bytes
  redirected base raw_url none = raw_url
  redirected base raw_url (some u) = with_query (base ++ u.path) u.raw_query

  -- redirectToProxy
  unfoldable pub redirect_to_proxy : CachedHttpsGetter W → Bytes → Bytes
  redirect_to_proxy c raw_url =
      if is_empty c.collateral_proxy_base
      then raw_url
      else redirected c.collateral_proxy_base raw_url (env.parse_url raw_url)

  -- proxyInCooldown
  unfoldable pub proxy_in_cooldown : CachedHttpsGetter W → Bool
  proxy_in_cooldown c = not (c.proxy_retry_after == 0) && ltb (env.now c.world) c.proxy_retry_after

  -- proxyBudget, as the deadline of the attempt. A deadline that is past leaves no time.
  unfoldable pub proxy_deadline : CachedHttpsGetter W → Option ℕ → ℕ
  proxy_deadline c none = env.now c.world + retry_attempts_proxy * retry_interval
  proxy_deadline c (some deadline) =
      let budget = retry_attempts_proxy * retry_interval in
      let half = (deadline - env.now c.world) / 2 in
      env.now c.world + (if ltb half budget then half else budget)

  -- The embedded getter, at the state of the cache.
  abbrev pub upstream : CachedHttpsGetter W → Option ℕ → Bytes → Fetched × CachedHttpsGetter W
  upstream c deadline url =
      let reply = env.get_context deadline url c.world in (reply.0, record c { world = reply.1 })

  abbrev pub is_answer : FetchError → Bool
  is_answer (http_error code) = not (transient_status code)
  is_answer (transport e) = false

  -- What follows the attempt by way of the proxy.
  abbrev pub after_failure :
      Bool → FetchError → CachedHttpsGetter W → Option ℕ → Bytes → Fetched × CachedHttpsGetter W
  after_failure true e c deadline url = (failed e, c)
  after_failure false e c deadline url =
      upstream (record c { proxy_retry_after = env.now c.world + proxy_retry_cooldown }) deadline
        url

  abbrev pub after_proxy :
      Fetched × CachedHttpsGetter W → Option ℕ → Bytes → Fetched × CachedHttpsGetter W
  after_proxy (fetched r, c) deadline url = (fetched r, record c { proxy_retry_after = 0 })
  after_proxy (failed e, c) deadline url = after_failure (is_answer e) e c deadline url

  -- fetch
  unfoldable pub fetch : CachedHttpsGetter W → Option ℕ → Bytes → Fetched × CachedHttpsGetter W
  unfolding proxy_in_cooldown redirect_to_proxy proxy_deadline transient_status
  fetch c deadline url =
      if is_empty c.collateral_proxy_base || proxy_in_cooldown c
      then upstream c deadline url
      else after_proxy (upstream c (some (proxy_deadline c deadline)) (redirect_to_proxy c url))
          deadline url

  -- An entry is written where the reply can be marshalled.
  abbrev pub remember : Option Bytes → Bytes → CachedHttpsGetter W → CachedHttpsGetter W
  remember none url c = c
  remember (some data') url c = record c { cache = set c.cache url data' }

  abbrev pub entry_at : Option Bytes → Option Reply
  entry_at none = none
  entry_at (some cached) = env.unmarshal cached

  abbrev pub kept : Option Reply → FetchError → Fetched
  kept none e = failed e
  kept (some r) e = fetched r

  -- Always ask; the cache is for when that fails.
  abbrev pub revalidated : Fetched × CachedHttpsGetter W → Bytes → Fetched × CachedHttpsGetter W
  revalidated (fetched r, c) url = (fetched r, remember (env.marshal r) url c)
  revalidated (failed e, c) url = (kept (entry_at (get c.cache url)) e, c)

  -- A miss.
  abbrev pub requested : Fetched × CachedHttpsGetter W → Bytes → Fetched × CachedHttpsGetter W
  requested (fetched r, c) url = (fetched r, remember (env.marshal r) url c)
  requested (failed e, c) url = (failed e, c)

  abbrev pub looked_up :
      Option Reply → CachedHttpsGetter W → Option ℕ → Bytes → Fetched × CachedHttpsGetter W
  looked_up (some r) c deadline url = (fetched r, c)
  looked_up none c deadline url = requested (fetch c deadline url) url

  abbrev pub collected : Bool → CachedHttpsGetter W → CachedHttpsGetter W
  collected true c = record c { cache = clear c.cache }
  collected false c = c

  abbrev pub get_by : Bool → CachedHttpsGetter W → Option ℕ → Bytes → Fetched × CachedHttpsGetter W
  get_by true c deadline url = revalidated (fetch c deadline url) url
  get_by false c deadline url = looked_up (entry_at (get c.cache url)) c deadline url

  -- GetContext, by whether the ticker for the garbage collection has ticked.
  unfoldable pub get_context :
      Bool → CachedHttpsGetter W → Option ℕ → Bytes → Fetched × CachedHttpsGetter W
  unfolding fetch always_revalidate
  get_context ticked c deadline url =
      get_by (always_revalidate url) (collected ticked c) deadline url
