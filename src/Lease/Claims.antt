-- ===== src/Lease/Claims.antt =====
-- tools/fifo/internal/lease/lease.go: what claiming and releasing a lease do at the API server.
use contrast.Prelude.{
  Bytes, bytes_equal, bytes_equal_refl, Bool-cases, ltb, Result, ok, err, not_exist, already_exists,
  conflict, true, false, ℕ, ◌+◌, ◌*◌, ◌≤◌, some, ◌≡◌, ◌≢◌, refl, arith, sym, ◌∙◌, ap, subst, inl,
  inr,
}
use contrast.Lease.{
  Lease, Contender, Api, second, expiry, new_lease, taken_over, after_create, after_update,
  claim_read, claim_lease, release,
}

-- The API server's optimistic concurrency, and that the lease it answers with is the stored one.
pub record ApiLaws {C : Type 0} (api : Api C) : Type 0 where
  pub name-get : (n : Bytes) (l : Lease) (c : C) → api.get n c ≡ ok l → l.name ≡ n
  pub create_fresh :
      (l k : Lease) (c : C) → (api.create l c).0 ≡ ok k → api.get l.name c ≡ err not_exist
  pub get-create :
      (l k : Lease) (c : C)
      → (api.create l c).0 ≡ ok k
      → (v : ℕ) × (api.get l.name (api.create l c).1 ≡ ok (record l { resource_version = v }))
  pub update_version :
      (l k : Lease) (c : C)
      → (api.update l c).0 ≡ ok k
      → (old : Lease) × (api.get l.name c ≡ ok old) × (old.resource_version ≡ l.resource_version)
  pub get-update :
      (l k : Lease) (c : C)
      → (api.update l c).0 ≡ ok k
      → (v : ℕ) × (api.get l.name (api.update l c).1 ≡ ok (record l { resource_version = v }))
  pub get-delete :
      (n : Bytes) (c : C)
      → (api.delete n c).0 ≡ ok tt
      → api.get n (api.delete n c).1 ≡ err not_exist

-- What others do gives a lease that they change another resource version.
pub record Versioned {C : Type 0} (api : Api C) (interfere : C → C) : Type 0 where
  pub same :
      (name : Bytes) (a b : Lease) (c : C)
      → api.get name c ≡ ok a
      → api.get name (interfere c) ≡ ok b
      → b.resource_version ≡ a.resource_version
      → a ≡ b

-- Nobody holds the lease at a time.
abbrev pub IsFree : ℕ → Result Lease → Type 0
IsFree now (ok l) = expiry l ≤ now
IsFree now (err not_exist) = Unit
IsFree now (err e) = ⊥

module _ {C : Type 0} (api : Api C) where
  -- The lease was free when it was written, and the contender holds it from now on.
  pub record IsClaimed (p : Contender) (now : ℕ) (before after : C) : Type 0 where
    pub was_free : IsFree now (api.get p.lease_name before)
    pub lease : Lease
    pub stored : api.get p.lease_name after ≡ ok lease
    pub holder : lease.holder_identity ≡ some p.identity
    pub expires : expiry lease ≡ now + p.duration_seconds * second

  after_create-true :
      (r : Result Lease × C)
      → (after_create api r).0 ≡ ok true
      → (l : Lease) × (r.0 ≡ ok l) × ((after_create api r).1 ≡ r.1)
  after_create-true (ok l, c) e = (l, refl, refl)
  after_create-true (err already_exists, c) e = cc
  after_create-true (err x, c) e = cc

  after_update-true :
      (r : Result Lease × C)
      → (after_update api r).0 ≡ ok true
      → (l : Lease) × (r.0 ≡ ok l) × ((after_update api r).1 ≡ r.1)
  after_update-true (ok l, c) e = (l, refl, refl)
  after_update-true (err conflict, c) e = cc
  after_update-true (err x, c) e = cc

  module _ (laws : ApiLaws api) where
    created :
        (p : Contender) (now : ℕ) (c : C)
        → (after_create api (api.create (new_lease api p now) c)).0 ≡ ok true
        → IsClaimed p now c (after_create api (api.create (new_lease api p now) c)).1
    created p now c e =
        let (l, made, same) = after_create-true (api.create (new_lease api p now) c) e in
        let (v, stored) = laws.get-create (new_lease api p now) l c made in
        record {
          was_free = subst (IsFree now) (sym (laws.create_fresh (new_lease api p now) l c made)) tt;
          lease = record (new_lease api p now) { resource_version = v };
          stored = ap (api.get p.lease_name) same ∙ stored;
          holder = refl;
          expires = refl;
        }

    updated :
        (p : Contender) (now : ℕ) (l : Lease) (c : C)
        → l.name ≡ p.lease_name
        → ((b : Lease)
            → api.get p.lease_name c ≡ ok b
            → b.resource_version ≡ l.resource_version
            → l ≡ b)
        → ltb now (expiry l) ≡ false
        → (after_update api (api.update (taken_over api p now l) c)).0 ≡ ok true
        → IsClaimed p now c (after_update api (api.update (taken_over api p now l) c)).1
    updated p now l c named same_version expired e =
        let (k, made, same) = after_update-true (api.update (taken_over api p now l) c) e in
        let (old, there, version) = laws.update_version (taken_over api p now l) k c made in
        let (v, stored) = laws.get-update (taken_over api p now l) k c made in
        let there' = ap (λ n. api.get n c) (sym named) ∙ there in
        let is_old = same_version old there' version in
        record {
          was_free = subst (IsFree now) (sym (there' ∙ ap ok (sym is_old))) (ground arith);
          lease = record (taken_over api p now l) { resource_version = v };
          stored =
              ap (api.get p.lease_name) same
              ∙ ap (λ n. api.get n (api.update (taken_over api p now l) c).1) (sym named)
              ∙ stored;
          holder = refl;
          expires = refl;
        }

    claim_read_lem :
        (p : Contender) (now : ℕ) (r : Result Lease) (c : C)
        → ((l : Lease)
            → r ≡ ok l
            → (l.name ≡ p.lease_name)
              × ((b : Lease)
                  → api.get p.lease_name c ≡ ok b
                  → b.resource_version ≡ l.resource_version
                  → l ≡ b))
        → (claim_read api p now r c).0 ≡ ok true
        → IsClaimed p now c (claim_read api p now r c).1
    unfolding claim_read
    claim_read_lem p now (err not_exist) c same e = created p now c e
    claim_read_lem p now (err x) c same e = cc
    claim_read_lem p now (ok l) c same e = elim (Bool-cases (ltb now (expiry l))) [
      | inl held ↦ absurd (true_ne (rw held at e))
      | inr expired ↦
          rw expired (updated p now l c (same l refl).0 (same l refl).1 expired (rw expired at e))
    ]
      where
        true_ne : ok false ≢ ok true
        true_ne x = cc

    -- Whatever others do between the two API calls, if it gives the leases that it changes another
    -- resource version, claimLease succeeds only if the lease is missing or has expired when it is
    -- written, and then the contender holds it until its duration has passed.
    pub claim_lease-IsClaimed :
        (interfere : C → C) (p : Contender) (now : ℕ) (c : C)
        → Versioned api interfere
        → (claim_lease api interfere p now c).0 ≡ ok true
        → IsClaimed p now (interfere c) (claim_lease api interfere p now c).1
    unfolding claim_lease
    claim_lease-IsClaimed interfere p now c versioned e =
        claim_read_lem p now (api.get p.lease_name c) (interfere c)
          (λ l got. (
            laws.name-get p.lease_name l c got,
            λ b there version. versioned.same p.lease_name l b c got there version,
          ))
          e

    -- Two contenders do not hold a lease at one time: if one has claimed it, and the lease is still
    -- what it has written when another one writes, then the first one's duration has passed.
    pub claim_lease_exclusive :
        (interfere interfere' : C → C) (p q : Contender) (now now' : ℕ) (c c' : C)
        → Versioned api interfere
        → Versioned api interfere'
        → p.lease_name ≡ q.lease_name
        → (claim_lease api interfere p now c).0 ≡ ok true
        → api.get q.lease_name (interfere' c')
          ≡ api.get p.lease_name (claim_lease api interfere p now c).1
        → (claim_lease api interfere' q now' c').0 ≡ ok true
        → now + p.duration_seconds * second ≤ now'
    claim_lease_exclusive interfere interfere' p q now now' c c' v v' one e same e' =
        let first = claim_lease-IsClaimed interfere p now c v e in
        let next = claim_lease-IsClaimed interfere' q now' c' v' e' in
        let expired : expiry first.lease ≤ now' =
          subst (IsFree now') (same ∙ first.stored) next.was_free in
        omega (arith, first.expires, expired)

    -- Release asks who holds the lease and then deletes whatever is there: once the lease is the
    -- contender's when it asks, the lease is gone afterwards, also if it has expired in between and
    -- others have claimed it.
    pub get-release :
        (interfere : C → C) (p : Contender) (l : Lease) (c : C)
        → api.get p.lease_name c ≡ ok l
        → l.holder_identity ≡ some p.identity
        → (api.delete p.lease_name (interfere c)).0 ≡ ok tt
        → ((release api interfere p c).0 ≡ ok tt)
          × (api.get p.lease_name (release api interfere p c).1 ≡ err not_exist)
    unfolding release
    get-release interfere p l c got held deleted =
        let same : bytes_equal p.identity p.identity ≡ true = bytes_equal_refl p.identity in
        rw (got, held, same) (deleted, laws.get-delete p.lease_name (interfere c) deleted)
