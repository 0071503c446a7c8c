-- ===== src/Lease.antt =====
-- tools/fifo/internal/lease/lease.go: a queue for shared resources over Kubernetes leases. Times are
-- microseconds. The leases have the fields that this package gives them: one that somebody else made
-- without them would be a nil dereference. `interfere` is what others do between two API calls.
pub mod Queue
pub mod Claims
use contrast.Prelude.{
  Bytes, codes, bytes_equal, ◌++◌, Result, ok, err, not_exist, already_exists, conflict, other,
  Option, none, some, Bool, true, false, not, ◌||◌, ℕ, zero, suc, ◌+◌, ◌*◌, List, [], ◌∷◌,
  if◌then◌else◌, ltb, leb, ◌==◌, ◌≡◌,
}

-- coordinationv1.Lease; the label is that of a queue entry.
pub record Lease : Type 0 where
  pub name : Bytes
  pub resource_version : ℕ
  pub label : Option Bytes
  pub holder_identity : Option Bytes
  pub acquire_time : ℕ
  pub renew_time : ℕ
  pub lease_duration_seconds : ℕ
  pub lease_transitions : Option ℕ

-- The type Lease of the package: who wants which resource, for how long, and the queue entry.
pub record Contender : Type 0 where
  pub lease_name : Bytes
  pub identity : Bytes
  pub duration_seconds : ℕ
  pub entry : Option Lease

-- coordinationtypesv1.LeaseInterface. Create takes the name of an entry to be generated as its prefix.
pub record Api (C : Type 0) : Type 0 where
  pub list : Bytes → C → Result (List Lease)
  pub get : Bytes → C → Result Lease
  pub create : Lease → C → Result Lease × C
  pub update : Lease → C → Result Lease × C
  pub delete : Bytes → C → Result (Unit {0}) × C

abbrev pub second : ℕ
second = 1_000_000

abbrev pub hour : ℕ
hour = 3600 * second

abbrev pub queue_entry_ttl : ℕ
queue_entry_ttl = 60

abbrev pub expiry : Lease → ℕ
expiry l = l.renew_time + l.lease_duration_seconds * second

abbrev unknown_holder : Bytes
unknown_holder = codes "<unknown>"

-- orDefault
abbrev pub or_default {ℓ} : {A : Type ℓ} → Option A → A → A
or_default none a = a
or_default (some b) a = b

-- strings.Compare(a, b) <= 0
unfoldable pub at_most : Bytes → Bytes → Bool
at_most [] b = true
at_most (x ∷ a) [] = false
at_most (x ∷ a) (y ∷ b) =
    let rest = at_most a b in if ltb x y then true else if x == y then rest else false

-- `*a.Spec.HolderIdentity`
abbrev pub holder_of : Lease → Bytes
holder_of l = or_default l.holder_identity []

abbrev pub insert_sorted : Lease → List Lease → List Lease
insert_sorted l [] = l ∷ []
insert_sorted l (k ∷ ks) =
    let rest = insert_sorted l ks in
    if at_most (holder_of l) (holder_of k) then l ∷ k ∷ ks else k ∷ rest

-- slices.SortFunc by the holder.
unfoldable pub sort_by_holder : List Lease → List Lease
sort_by_holder [] = []
sort_by_holder (l ∷ ls) = insert_sorted l (sort_by_holder ls)

-- The variables of the loop of tryAcquire.
pub record Front : Type 0 where
  pub earliest : ℕ
  pub holder : Bytes
  pub found_self : Bool

-- One round of the loop.
unfoldable pub look : Bytes → ℕ → Lease → Front → Front
look self now item f =
    if ltb (expiry item) now
    then f
    else let found = f.found_self || bytes_equal (holder_of item) self in
      if ltb f.earliest item.acquire_time
      then record f { found_self = found }
      else record { earliest = item.acquire_time; holder = holder_of item; found_self = found }

unfoldable pub look_all : Bytes → ℕ → List Lease → Front → Front
look_all self now [] f = f
look_all self now (item ∷ items) f = look_all self now items (look self now item f)

-- What tryAcquire does next.
pub data Turn : Type 0 where
  vanished wait claim : Turn

unfoldable pub turn : Bytes → Front → Turn
turn self f =
    if not f.found_self then vanished else if bytes_equal f.holder self then claim else wait

unfoldable pub position : Bytes → ℕ → List Lease → Turn
unfolding look_all turn sort_by_holder
position self now items = turn self (
    look_all self now (sort_by_holder items)
      (record { earliest = now + hour; holder = []; found_self = false }))

module _ {C : Type 0} (api : Api C) where
  abbrev pub new_lease : Contender → ℕ → Lease
  new_lease p now = record {
    name = p.lease_name;
    resource_version = 0;
    label = none;
    holder_identity = some p.identity;
    acquire_time = now;
    renew_time = now;
    lease_duration_seconds = p.duration_seconds;
    lease_transitions = none;
  }

  -- The expired lease in the hands of the contender.
  abbrev pub taken_over : Contender → ℕ → Lease → Lease
  taken_over p now l = record l {
    holder_identity = some p.identity;
    acquire_time = now;
    renew_time = now;
    lease_duration_seconds = p.duration_seconds;
    lease_transitions = some (or_default l.lease_transitions 0 + 1);
  }

  abbrev pub after_create : Result Lease × C → Result Bool × C
  after_create (ok l, c) = (ok true, c)
  after_create (err already_exists, c) = (ok false, c)
  after_create (err e, c) = (err e, c)

  abbrev pub after_update : Result Lease × C → Result Bool × C
  after_update (ok l, c) = (ok true, c)
  after_update (err conflict, c) = (ok false, c)
  after_update (err e, c) = (err e, c)

  unfoldable pub claim_read : Contender → ℕ → Result Lease → C → Result Bool × C
  claim_read p now (err not_exist) c = after_create (api.create (new_lease p now) c)
  claim_read p now (err e) c = (err e, c)
  claim_read p now (ok l) c =
      if ltb now (expiry l) then (ok false, c) else after_update (api.update (taken_over p now l) c)

  -- claimLease
  unfoldable pub claim_lease : (C → C) → Contender → ℕ → C → Result Bool × C
  unfolding claim_read
  claim_lease interfere p now c = claim_read p now (api.get p.lease_name c) (interfere c)

  unfoldable pub take_turn : (C → C) → Contender → ℕ → Turn → C → Result Bool × C
  unfolding claim_lease
  take_turn interfere p now vanished c = (err (other 0), c)
  take_turn interfere p now wait c = (ok false, c)
  take_turn interfere p now claim c = claim_lease interfere p now c

  unfoldable pub acquire_listed :
      (C → C) → Contender → ℕ → ℕ → Result (List Lease) → C → Result Bool × C
  unfolding take_turn position
  acquire_listed interfere p now now' (err e) c = (ok false, c)
  acquire_listed interfere p now now' (ok items) c =
      take_turn interfere p now' (position p.identity now items) c

  -- tryAcquire, which reads the clock once for the queue and once more for the lease.
  unfoldable pub try_acquire : (C → C) → Contender → ℕ → ℕ → C → Result Bool × C
  unfolding acquire_listed
  try_acquire interfere p now now' c =
      acquire_listed interfere p now now' (api.list p.lease_name c) (interfere c)

  abbrev after_delete : Contender → C → Result Lease → Result (Unit {0}) × C
  after_delete p c (err e) = (err e, c)
  after_delete p c (ok l) =
      if bytes_equal (or_default l.holder_identity unknown_holder) p.identity
      then api.delete p.lease_name c
      else (err (other 1), c)

  -- Release: the holder is checked by one call, and the lease deleted by another.
  unfoldable pub release : (C → C) → Contender → C → Result (Unit {0}) × C
  release interfere p c = after_delete p (interfere c) (api.get p.lease_name c)

  abbrev joined : Contender → Result Lease × C → Result Contender × C
  joined p (err e, c) = (err e, c)
  joined p (ok l, c) = (ok (record p { entry = some l }), c)

  abbrev new_entry : Contender → ℕ → Lease
  new_entry p now = record {
    name = p.lease_name ++ codes "-q-";
    resource_version = 0;
    label = some p.lease_name;
    holder_identity = some p.identity;
    acquire_time = now;
    renew_time = now;
    lease_duration_seconds = queue_entry_ttl;
    lease_transitions = none;
  }

  abbrev create_unless : Contender → Option Lease → ℕ → C → Result Contender × C
  create_unless p (some l) now c = (err (other 2), c)
  create_unless p none now c = joined p (api.create (new_entry p now) c)

  -- createQueueEntry
  unfoldable pub create_queue_entry : Contender → ℕ → C → Result Contender × C
  create_queue_entry p now c = create_unless p p.entry now c

  abbrev refreshed : Contender → Result Lease × C → Contender × C
  refreshed p (err e, c) = (p, c)
  refreshed p (ok l, c) = (record p { entry = some l }, c)

  -- One round of refreshQueueEntry: a failure to renew keeps the old entry.
  unfoldable pub refresh_queue_entry : Contender → Lease → ℕ → C → Contender × C
  refresh_queue_entry p l now c = refreshed p (api.update (record l { renew_time = now }) c)

  -- The deferred cleanup of refreshQueueEntry.
  unfoldable pub clean_queue_entry : Contender → Lease → C → Contender × C
  clean_queue_entry p l c = (record p { entry = none }, (api.delete l.name c).1)
