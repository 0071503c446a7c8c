-- ===== src/Tests/Caches.antt =====
-- Retries and the cache, at concrete inputs.
use contrast.Prelude.{
  Bytes, codes, lookup, insert, Option, none, some, Bool, true, false, inr, ℕ, ◌+◌, ◌-◌, ◌<◌, [],
  ◌∷◌, ◌==◌, ◌++◌, length, take, drop, if◌then◌else◌, ◌≡◌, refl, arith,
}
use contrast.Retry.{World, do_from}
use contrast.Retry.Deadlines.{HasDeadline, Ends, do_from-Ends}
use contrast.Certcache.{
  Reply, Fetched, fetched, failed, transport, Url, Env, CachedHttpsGetter, get_context, fetch, get,
  entry_at, proxy_retry_cooldown, redirect_to_proxy, proxy_in_cooldown, always_revalidate,
  letters_crl,
}
use contrast.Certcache.Proxies.{attempt}
use contrast.Certcache.Waiting.{IsMonotone}
use contrast.Certcache.Cooldown.{Later, same, called, fetch_cooldown}

-- The turns that are left before the deadline; a call succeeds in the last turn.
abbrev world : World ℕ ℕ
world = record {
  do_once = λ w. (if w == 1 then none else some w, w);
  is_done = λ w. w == 0;
  wait = λ w. (w == 0, w - 1);
  retriable = λ e. true;
}

world-HasDeadline : HasDeadline world (λ w. w)
world-HasDeadline = record { attempts = λ w. omega arith; waits = λ w h. ground arith }

do_from-Ends_example : Ends world (do_from world 4 none 3)
do_from-Ends_example = do_from-Ends world (λ w. w) world-HasDeadline 4 none 3 (omega arith) tt

abbrev crl_reply : Reply
crl_reply = record { header = []; body = codes "crl" }

-- A network that is up or down; the proxy's addresses begin with a p, and it is always down.
abbrev answer : Bytes → Bool → Fetched
answer [] up = failed (transport 1)
answer (c ∷ url) true = if c == b'p' then failed (transport 2) else fetched crl_reply
answer (c ∷ url) false = failed (transport 3)

abbrev no_path : Option Url
no_path = some (record { path = codes "/x"; raw_query = [] })

abbrev read : Bytes → Option Reply
read [] = none
read (n ∷ b) = some (record { header = take n b; body = drop n b })

abbrev env : Env (Bool × ℕ)
env = record {
  parse_url = λ u. no_path;
  marshal = λ r. some (length r.header ∷ (r.header ++ r.body));
  unmarshal = read;
  now = λ w. w.1;
  get_context = λ deadline url w. (answer url w.0, (w.0, w.1 + 1));
}

abbrev Serves : Bytes → Reply → Type 0
Serves url r = r ≡ crl_reply

abbrev cold : CachedHttpsGetter (Bool × ℕ)
cold = record {
  world = (true, 7);
  cache = record { m = [] };
  collateral_proxy_base = codes "proxy";
  proxy_retry_after = 0;
}

abbrev url : Bytes
url = codes "https://kds/crl"

ready : proxy_in_cooldown env cold ≡ false
unfolding proxy_in_cooldown
ready = refl

proxy_down : (attempt env cold none url).0 ≡ failed (transport 2)
unfolding redirect_to_proxy
proxy_down = refl

-- The getter after the call, and after another one.
abbrev after : CachedHttpsGetter (Bool × ℕ)
after = (get_context env false cold none url).1

abbrev later : CachedHttpsGetter (Bool × ℕ)
later = (get_context env true after none (codes "https://kds/x")).1

missing : entry_at env (get cold.cache url) ≡ none
unfolding lookup
missing = refl

early : env.now later.world < env.now (attempt env cold none url).1.world + proxy_retry_cooldown
unfolding get_context fetch redirect_to_proxy proxy_in_cooldown always_revalidate letters_crl lookup
    insert
early = omega arith

forward : IsMonotone env
forward deadline url w = omega arith

fetch_cooldown_example :
    ((r : Reply)
      → (env.get_context none url (attempt env cold none url).1.world).0 ≡ fetched r
      → (get_context env false cold none url).0 ≡ fetched r)
    × ((d : CachedHttpsGetter (Bool × ℕ)) (deadline' : Option ℕ) (url' : Bytes)
        → Later env after d
        → env.now d.world < env.now (attempt env cold none url).1.world + proxy_retry_cooldown
        → fetch env d deadline' url' ≡ (
          (env.get_context deadline' url' d.world).0,
          record d { world = (env.get_context deadline' url' d.world).1 },
        ))
fetch_cooldown_example =
    fetch_cooldown env forward false cold none url (transport 2) refl ready proxy_down refl
      (inr missing)

-- A later getter, and what it does.
later-fetch : fetch env later none url ≡ (
  (env.get_context none url later.world).0,
  record later { world = (env.get_context none url later.world).1 },
)
later-fetch =
    fetch_cooldown_example.1 later none url (called same true none (codes "https://kds/x")) early

abbrev warm : CachedHttpsGetter (Bool × ℕ)
warm = (get_context env false cold none url).1
