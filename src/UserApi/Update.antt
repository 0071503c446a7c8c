-- ===== src/UserApi/Update.antt =====
-- coordinator/internal/userapi/userapi.go: which manifests SetManifest accepts.
use contrast.Prelude.{
  Bytes, bytes_equal_iff, Result, ok, err, Option, none, some, Bool, true, false, ℕ, List, [], ◌∷◌,
  get_elem?, ◌≡◌, ◌≢◌, ◌⊎◌, inl, inr, refl, arith, sym, ◌∙◌, ap, subst,
}
use contrast.Store.{Store}
use contrast.Manifest.{Manifest}
use contrast.Guard.{Env, State, Guard, Json, malformed, null, document, fresh}
use contrast.Guard.Methods.{get_state, update_state}
use contrast.UserApi
use contrast.UserApi.{
  SetManifestRequest, SetManifestResponse, Outcome, reply, status, returned, panic,
  invalid_argument, permission_denied, failed_precondition, ◌>>=◌, or_status, require, Peer,
  check_manifest_security, same_keys, matches_previous, unmarshal_pointer, Decision,
  validate_signature, authorize_caller, or_peer,
}
use contrast.UserApi.Security.{platform_names, is_acceptable, check_manifest_security_iff}
use contrast.UserApi.Access.{IsAllowed, authorize_caller_reply}
use contrast.UserApi.Handlers.{
  at_pointer, decide_existing, check_security, decide_at, decide_parsed, respond, update,
  set_manifest,
}

pub bind_reply {ℓ κ} :
    {A : Type ℓ} {B : Type κ} (m : Outcome A) (f : A → Outcome B) {b : B}
    → (m >>= f) ≡ reply b
    → (a : A) × (m ≡ reply a) × (f a ≡ reply b)
bind_reply (reply a) f e = (a, refl, e)
bind_reply (status c) f e = cc
bind_reply (returned x) f e = cc
bind_reply panic f e = cc

same_keys_eq : (l m : List Bytes) → same_keys l m ≡ true → l ≡ m
unfolding same_keys
same_keys_eq [] [] e = refl
same_keys_eq [] (b ∷ m) e = cc
same_keys_eq (a ∷ l) [] e = cc
same_keys_eq (a ∷ l) (b ∷ m) e = ground (arith, bytes_equal_iff a b, same_keys_eq l m)

require_reply : (b : Bool) (c : UserApi.Code) → require b c ≡ reply tt → b ≡ true
require_reply true c e = refl
require_reply false c e = cc

or_status_reply {ℓ} :
    {A : Type ℓ} (c : UserApi.Code) (r : Result A) {a : A} → or_status c r ≡ reply a → r ≡ ok a
or_status_reply c (ok a) e = ground arith
or_status_reply c (err x) e = cc

deref_reply {ℓ} : {A : Type ℓ} (o : Option A) {a : A} → UserApi.deref o ≡ reply a → o ≡ some a
deref_reply none e = cc
deref_reply (some a) e = ground arith

some_injective : {A : Type 0} {a b : A} → some a ≡ some b → a ≡ b
some_injective e = cc

at_pointer_reply : (o : Option State) {s : State} → at_pointer o ≡ reply s → o ≡ some s
at_pointer_reply none e = cc
at_pointer_reply (some s) e = ground arith

unmarshal_pointer_reply :
    (j : Json) {m : Manifest} → unmarshal_pointer j ≡ reply (some m) → j ≡ document m
unmarshal_pointer_reply malformed e = cc
unmarshal_pointer_reply null e = cc
unmarshal_pointer_reply (document m) e = ground arith

matches_previous_eq :
    (o : Option Bytes) (hash b : Bytes) → matches_previous o hash ≡ true → o ≡ some b → b ≡ hash
unfolding matches_previous
matches_previous_eq none hash b e p = cc
matches_previous_eq (some x) hash b e p = ground (arith, bytes_equal_iff x hash)

module _ {S : Type 0} (store : Store S) (env : Env) (random_bytes : ℕ → ℕ → Option Bytes) where
  -- What SetManifest has checked of a request where there is a state.
  pub record IsApproved (allow_insecure : Bool) (peer : Peer) (s : State) (req : SetManifestRequest)
      (m : Manifest) : Type 0 where
    pub parsed : env.unmarshal req.manifest ≡ document m
    pub allowed :
        IsAllowed env.crypto peer s.manifest.workload_owner_pub_keys s.latest.transition_hash req
    pub same_owners : s.manifest.seedshare_owner_pub_keys ≡ m.seedshare_owner_pub_keys
    pub expected :
        (b : Bytes) → req.previous_transition_hash ≡ some b → b ≡ s.latest.transition_hash
    pub security : check_manifest_security allow_insecure m ≡ ok tt
    pub acceptable : is_acceptable allow_insecure (platform_names m) ≡ true

  abbrev pub keeps_engine : ℕ → State → Decision
  keeps_engine p s = record {
    old_state = some p;
    seed_engine = s.seed_engine;
    seed_shares_doc = none;
  }

  record IsDecided (peer : Peer) (p : ℕ) (s : State) (req : SetManifestRequest)
      (o : Option Manifest) (m : Manifest) (d : Decision) : Type 0 where
    is_document : o ≡ some m
    allowed :
        IsAllowed env.crypto peer s.manifest.workload_owner_pub_keys s.latest.transition_hash req
    same_owners : s.manifest.seedshare_owner_pub_keys ≡ m.seedshare_owner_pub_keys
    expected : (b : Bytes) → req.previous_transition_hash ≡ some b → b ≡ s.latest.transition_hash
    keeps : d ≡ keeps_engine p s

  decide_existing_reply :
      (peer : Peer) (p : ℕ) (s : State) (req : SetManifestRequest) (o : Option Manifest)
      (d : Decision)
      → decide_existing store env random_bytes peer p s req o ≡ reply d
      → (m : Manifest) × IsDecided peer p s req o m d
  unfolding decide_existing
  decide_existing_reply peer p s req o d e =
      let (_, a, e1) =
        bind_reply
          (authorize_caller env.crypto peer s.manifest.workload_owner_pub_keys
            s.latest.transition_hash req)
          _ e in
      let (m, is_some, e2) = bind_reply (UserApi.deref o) _ e1 in
      let (_, same, e3) =
        bind_reply
          (require (same_keys s.manifest.seedshare_owner_pub_keys m.seedshare_owner_pub_keys)
            permission_denied)
          _ e2 in
      let (_, prev, e4) =
        bind_reply
          (require (matches_previous req.previous_transition_hash s.latest.transition_hash)
            failed_precondition)
          _ e3 in
      (
        m,
        record {
          is_document = deref_reply o is_some;
          allowed =
              authorize_caller_reply env.crypto peer s.manifest.workload_owner_pub_keys
                s.latest.transition_hash req a;
          same_owners = same_keys_eq _ _ (require_reply _ permission_denied same);
          expected = λ b.
              matches_previous_eq req.previous_transition_hash s.latest.transition_hash b
                (require_reply _ failed_precondition prev);
          keeps = ground arith;
        },
      )

  check_security_reply :
      (allow : Bool) (m : Manifest) (d d' : Decision)
      → check_security store env random_bytes allow (some m) d ≡ reply d'
      → (check_manifest_security allow m ≡ ok tt) × (d ≡ d')
  unfolding check_security
  check_security_reply allow m d d' e =
      let (_, secure, e1) =
        bind_reply (or_status invalid_argument (check_manifest_security allow m)) _ e in
      (or_status_reply invalid_argument _ secure, ground arith)

  decide_fresh_reply :
      (allow : Bool) (peer : Peer) (rand p : ℕ) (s : State) (req : SetManifestRequest) (g : Guard S)
      (d : Decision)
      → get_elem? g.states p ≡ some s
      → decide_parsed store env random_bytes allow peer rand req g (fresh p) ≡ reply d
      → (m : Manifest) × IsApproved allow peer s req m × (d ≡ keeps_engine p s)
  unfolding decide_parsed decide_at
  decide_fresh_reply allow peer rand p s req g d at e =
      let (o, read, e1) = bind_reply (unmarshal_pointer (env.unmarshal req.manifest)) _ e in
      let (s', found, e2) = bind_reply (at_pointer (get_elem? g.states p)) _ e1 in
      let (d1, decided, e3) =
        bind_reply (decide_existing store env random_bytes peer p s' req o) _ e2 in
      let (m, made) = decide_existing_reply peer p s' req o d1 decided in
      let same : s' ≡ s = some_injective (sym (at_pointer_reply _ found) ∙ at) in
      let (secure, kept) =
        check_security_reply allow m d1 d (
          ap (λ k. check_security store env random_bytes allow k d1) (sym made.is_document) ∙ e3) in
      (
        m,
        subst (λ t. IsApproved allow peer t req m) same
            (record {
              parsed =
                  unmarshal_pointer_reply (env.unmarshal req.manifest)
                    (read ∙ ap reply made.is_document);
              allowed = made.allowed;
              same_owners = made.same_owners;
              expected = made.expected;
              security = secure;
              acceptable = (check_manifest_security_iff allow m).0 secure;
            }),
        sym kept ∙ made.keeps ∙ ap (keeps_engine p) same,
      )

  -- What SetManifest does to the Guard and answers, if it is refused.
  pub record IsRefused (g : Guard S) (r : Outcome SetManifestResponse × Guard S) : Type 0 where
    pub guard_kept : r.1 ≡ g
    pub no_reply : (x : SetManifestResponse) → r.0 ≢ reply x

  -- UpdateState with the engine of the old state, and the answer that is made of its result.
  abbrev pub updated :
      ℕ → ℕ → State → SetManifestRequest → Guard S → Outcome SetManifestResponse × Guard S
  updated rand p s req g =
      let (r, g') =
        update_state store env rand (some p) s.seed_engine req.manifest req.policies g in
      (respond store env random_bytes (keeps_engine p s) r g', g')

  update_fresh :
      (allow : Bool) (peer : Peer) (rand p : ℕ) (s : State) (req : SetManifestRequest) (g : Guard S)
      (o : Outcome Decision)
      → ((d : Decision)
          → o ≡ reply d
          → (m : Manifest) × IsApproved allow peer s req m × (d ≡ keeps_engine p s))
      → IsRefused g (update store env random_bytes rand req o g)
        ⊎ ((m : Manifest) × IsApproved allow peer s req m
            × (update store env random_bytes rand req o g ≡ updated rand p s req g))
  unfolding update
  update_fresh allow peer rand p s req g (reply d) h =
      let (m, approved, kept) = h d refl in
      inr (m, approved, ap (λ k. update store env random_bytes rand req (reply k) g) kept)
  update_fresh allow peer rand p s req g (status c) h =
      inl (record { guard_kept = refl; no_reply = λ x e. cc })
  update_fresh allow peer rand p s req g (returned x) h =
      inl (record { guard_kept = refl; no_reply = λ x e. cc })
  update_fresh allow peer rand p s req g panic h =
      inl (record { guard_kept = refl; no_reply = λ x e. cc })

  -- Where the Coordinator has a state that is not stale, SetManifest either refuses, changes nothing
  -- and does not reply, or the request is approved and it is one UpdateState from that state, with
  -- its seed engine. Approved means that the manifest is a document with the old seedshare owners and
  -- the right security level, that the previous transition hash is the state's, if one is named, and
  -- that the caller signed the transition with, or is the owner of, one of the state's workload owner
  -- keys. Other requests may change the Guard while this one is checked.
  pub set_manifest-IsApproved :
      (allow : Bool) (meanwhile : Guard S → Guard S) (peer : Peer) (rand p : ℕ) (s : State)
      (req : SetManifestRequest) (g : Guard S)
      → get_state store env g ≡ fresh p
      → get_elem? g.states p ≡ some s
      → IsRefused
          (meanwhile g)
          (set_manifest store env random_bytes allow meanwhile peer rand req g)
        ⊎ ((m : Manifest) × IsApproved allow peer s req m
            × (set_manifest store env random_bytes allow meanwhile peer rand req g
                ≡ updated rand p s req (meanwhile g)))
  unfolding set_manifest
  set_manifest-IsApproved allow meanwhile peer rand p s req g now at =
      update_fresh allow peer rand p s req (meanwhile g)
        (decide_parsed store env random_bytes allow peer rand req g (get_state store env g))
        (λ d e.
          decide_fresh_reply allow peer rand p s req g d at
            (ap (decide_parsed store env random_bytes allow peer rand req g) (sym now) ∙ e))
