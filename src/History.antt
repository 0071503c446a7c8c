-- ===== src/History.antt =====
-- internal/history/history.go: manifests, policies and transitions in a content-addressed scheme
-- over a key-value store, with a local cache, and the signed pointer to the latest transition.
-- The proofs are in the modules below.
pub mod Encoding
pub mod Content
pub mod Walk
pub mod Chain
pub mod Latest
pub mod Keys
use contrast.Prelude.{
  Bytes, codes, bytes_equal, Map, lookup, insert, Result, ok, err, hash_mismatch, bad_signature,
  signing_failed, out_of_fuel, ◌>>=◌, if◌then◌else◌, ℕ, zero, suc, Option, none, some, List, [],
  ◌∷◌, ◌++◌, true, false, Bool,
}
use contrast.Crypto.{Crypto}
use contrast.Store.{Store}
use Encoding.{
  Transition, LatestTransition, zero_hash, hex_encode, marshal_transition, unmarshal_transition,
  marshal_latest, unmarshal_latest, digest,
}

-- The mutex is not modelled: each method is one step.
pub record History (S : Type 0) : Type 0 where
  pub store : S
  pub cache : Map Bytes

abbrev pub manifests : Bytes
manifests = codes "manifests/"

abbrev pub policies : Bytes
policies = codes "policies/"

abbrev pub transitions : Bytes
transitions = codes "transitions/"

abbrev pub latest_key : Bytes
latest_key = codes "transitions/latest"

-- fmt.Sprintf(pathFmt, hex.EncodeToString(hash[:]))
abbrev pub content_key : Bytes → Bytes → Bytes
content_key path hash = path ++ hex_encode hash

-- The closure that WalkTransitions runs; `X` is what it collects in captured variables.
abbrev pub Consumer : Type 0 → Type 0 → Type 0
Consumer S X = Bytes → Transition → X → History S → Result X × History S

module _ {S : Type 0} (store : Store S) (crypto : Crypto) where
  -- A new process: nothing is cached.
  unfoldable pub new_with_store : S → History S
  new_with_store s = record { store = s; cache = [] }

  unfoldable pub add_to_cache : Bytes → Bytes → History S → History S
  add_to_cache hash b h = record h { cache = insert hash b h.cache }

  unfoldable pub check_content : Bytes → Result Bytes → History S → Result Bytes × History S
  unfolding add_to_cache
  check_content hash (err e) h = (err e, h)
  check_content hash (ok b) h =
      if bytes_equal hash (digest crypto b)
      then (ok b, add_to_cache hash b h)
      else (err (hash_mismatch hash (digest crypto b)), h)

  unfoldable pub or_fetch : Bytes → Bytes → Option Bytes → History S → Result Bytes × History S
  unfolding check_content
  or_fetch path hash (some b) h = (ok b, h)
  or_fetch path hash none h = check_content hash (store.get (content_key path hash) h.store) h

  -- The cache is asked first, and by the hash alone.
  unfoldable pub get_contentaddressed : Bytes → Bytes → History S → Result Bytes × History S
  unfolding or_fetch
  get_contentaddressed path hash h = or_fetch path hash (lookup hash h.cache) h

  unfoldable pub finish_set :
      Bytes → Bytes → Result (Unit {0}) × S → History S → Result Bytes × History S
  unfolding add_to_cache
  finish_set hash b (err e, s) h = (err e, record h { store = s })
  finish_set hash b (ok _, s) h = (ok hash, add_to_cache hash b (record h { store = s }))

  unfoldable pub set_contentaddressed : Bytes → Bytes → History S → Result Bytes × History S
  unfolding finish_set
  set_contentaddressed path b h =
      finish_set (digest crypto b) b (store.set (content_key path (digest crypto b)) b h.store) h

  abbrev pub get_manifest : Bytes → History S → Result Bytes × History S
  get_manifest = get_contentaddressed manifests

  abbrev pub set_manifest : Bytes → History S → Result Bytes × History S
  set_manifest = set_contentaddressed manifests

  abbrev pub get_policy : Bytes → History S → Result Bytes × History S
  get_policy = get_contentaddressed policies

  abbrev pub set_policy : Bytes → History S → Result Bytes × History S
  set_policy = set_contentaddressed policies

  unfoldable pub get_transition : Bytes → History S → Result Transition × History S
  get_transition hash h =
      let (r, h') = get_contentaddressed transitions hash h in (r >>= unmarshal_transition, h')

  unfoldable pub set_transition : Transition → History S → Result Bytes × History S
  set_transition t = set_contentaddressed transitions (marshal_transition t)

  unfoldable pub get_latest_insecure : History S → Result LatestTransition
  get_latest_insecure h = store.get latest_key h.store >>= unmarshal_latest

  unfoldable pub verify : Bytes → LatestTransition → Result LatestTransition
  verify key l =
      if crypto.verify_asn1 key l.transition_hash l.signature then ok l else err bad_signature

  unfoldable pub get_latest : Bytes → History S → Result LatestTransition
  unfolding get_latest_insecure verify
  get_latest key h = get_latest_insecure h >>= verify key

  unfoldable pub has_latest : History S → Result Bool
  has_latest h = store.has latest_key h.store

  -- `sign` writes the signature into its receiver, so the signed transition comes back too.
  unfoldable pub swap_latest :
      Option LatestTransition
      → Bytes
      → Option Bytes
      → History S
      → Result LatestTransition × History S
  swap_latest old hash none h = (err signing_failed, h)
  swap_latest old hash (some sig) h =
      let new : LatestTransition = record { transition_hash = hash; signature = sig } in
      let (r, s) =
        store.compare_and_swap latest_key (marshal_latest old) (marshal_latest (some new))
          h.store in
      (r >>= λ _. ok new, record h { store = s })

  -- SetLatest(oldT, newT, signingKey), where newT has the given hash.
  unfoldable pub set_latest :
      ℕ → Option LatestTransition → Bytes → Bytes → History S → Result LatestTransition × History S
  unfolding swap_latest
  set_latest rand old hash key h = swap_latest old hash (crypto.sign_asn1 rand key hash) h

  module _ {X : Type 0} where
    unfoldable pub step_back :
        (Bytes → X → History S → Result X × History S)
        → Transition
        → Result X × History S
        → Result X × History S
    step_back next t (err e, h) = (err e, h)
    step_back next t (ok x, h) = next t.previous_transition_hash x h

    unfoldable pub visit :
        Consumer S X
        → (Bytes → X → History S → Result X × History S)
        → Bytes
        → X
        → Result Transition × History S
        → Result X × History S
    unfolding step_back
    visit consume next hash x (err e, h) = (err e, h)
    visit consume next hash x (ok t, h) = step_back next t (consume hash t x h)

    -- WalkTransitions; `x` is what the closure has collected so far. The loop has no bound in the
    -- source, so it takes fuel here.
    unfoldable pub walk_transitions :
        ℕ → Consumer S X → Bytes → X → History S → Result X × History S
    unfolding visit
    walk_transitions zero consume hash x h = (err out_of_fuel, h)
    walk_transitions (suc fuel) consume hash x h = elim (bytes_equal hash zero_hash) [
      | true ↦ (ok x, h)
      | false ↦ visit consume (walk_transitions fuel consume) hash x (get_transition hash h)
    ]
