-- ===== src/Store/ConfigMap.antt =====
-- internal/history/configmapstore/configmapstore.go: the store over Kubernetes config maps. Each
-- method is one or two calls to the API server, between which others may act: `interfere` is what
-- they do. Watch is not modelled, and of a config map neither its labels nor its namespace.
pub mod Atomic
use contrast.Prelude.{
  Bytes, bytes_equal, Map, lookup, insert, Result, ok, err, not_exist, has_changed, key_not_found,
  if◌then◌else◌, Bool, true, false, Option, none, some, ℕ, [], ◌∷◌, ◌≡◌, ◌>>=◌,
}
use contrast.Store.Keys.{object_name, base}

-- corev1.ConfigMap
pub record Object : Type 0 where
  pub name : Bytes
  pub resource_version : ℕ
  pub binary_data : Map Bytes

-- client.CoreV1().ConfigMaps(namespace); IsNotFound is `not_exist`.
pub record Client (C : Type 0) : Type 0 where
  pub get : Bytes → C → Result Object
  pub create : Object → C → Result (Unit {0}) × C
  pub update : Object → C → Result (Unit {0}) × C

-- The API server's optimistic concurrency: Create succeeds only where there is no object, and
-- Update only where the object has still the resource version that was read.
pub record ClientLaws {C : Type 0} (client : Client C) : Type 0 where
  pub name-get : (n : Bytes) (o : Object) (s : C) → client.get n s ≡ ok o → o.name ≡ n
  pub create_fresh :
      (o : Object) (s : C) → (client.create o s).0 ≡ ok tt → client.get o.name s ≡ err not_exist
  pub get-create :
      (o : Object) (s : C)
      → (client.create o s).0 ≡ ok tt
      → (v : ℕ) × (client.get o.name (client.create o s).1 ≡ ok (record o { resource_version = v }))
  pub update_version :
      (o : Object) (s : C)
      → (client.update o s).0 ≡ ok tt
      → (old : Object) × (client.get o.name s ≡ ok old)
        × (old.resource_version ≡ o.resource_version)
  pub get-update :
      (o : Object) (s : C)
      → (client.update o s).0 ≡ ok tt
      → (v : ℕ) × (client.get o.name (client.update o s).1 ≡ ok (record o { resource_version = v }))

-- What others do gives an object that they change another resource version.
pub record Versioned {C : Type 0} (client : Client C) (interfere : C → C) : Type 0 where
  pub same :
      (name : Bytes) (a b : Object) (s : C)
      → client.get name s ≡ ok a
      → client.get name (interfere s) ≡ ok b
      → b.resource_version ≡ a.resource_version
      → a ≡ b

abbrev is_empty : Bytes → Bool
is_empty [] = true
is_empty (b ∷ bs) = false

-- A key that is missing from the map of a present object reads as nil.
abbrev or_nil : Option Bytes → Bytes
or_nil none = []
or_nil (some v) = v

-- newEntry
unfoldable pub new_entry : Bytes → Bytes → Bytes → Object
new_entry name key v = record {
  name = name;
  resource_version = 0;
  binary_data = insert (base key) v [];
}

module _ {C : Type 0} (client : Client C) where
  unfoldable pub get : Bytes → C → Result Bytes
  get key s = do
    name ← object_name key
    cm ← client.get name s
    ok (or_nil (lookup (base key) cm.binary_data))

  unfoldable pub has_found : Result Object → Result Bool
  has_found (ok cm) = ok true
  has_found (err not_exist) = ok false
  has_found (err e) = err e

  unfoldable pub has : Bytes → C → Result Bool
  unfolding has_found
  has key s = do name ← object_name key; has_found (client.get name s)

  -- The write half of Set, after what was read.
  unfoldable pub set_read : Bytes → Bytes → Bytes → Result Object → C → Result (Unit {0}) × C
  unfolding new_entry
  set_read name key v (err not_exist) s = client.create (new_entry name key v) s
  set_read name key v (err e) s = (err e, s)
  set_read name key v (ok cm) s =
      client.update (record cm { binary_data = insert (base key) v cm.binary_data }) s

  unfoldable pub set_named : (C → C) → Result Bytes → Bytes → Bytes → C → Result (Unit {0}) × C
  unfolding set_read
  set_named interfere (err e) key v s = (err e, s)
  set_named interfere (ok name) key v s = set_read name key v (client.get name s) (interfere s)

  unfoldable pub set : (C → C) → Bytes → Bytes → C → Result (Unit {0}) × C
  unfolding set_named
  set interfere key v s = set_named interfere (object_name key) key v s

  unfoldable pub swap_value :
      Object → Bytes → Bytes → Bytes → Option Bytes → C → Result (Unit {0}) × C
  swap_value cm key old new none s = (err (key_not_found key), s)
  swap_value cm key old new (some v) s =
      if bytes_equal v old
      then client.update (record cm { binary_data = insert (base key) new cm.binary_data }) s
      else (err (has_changed key), s)

  -- The write half of CompareAndSwap. A missing object counts as empty.
  unfoldable pub swap_read :
      Bytes → Bytes → Bytes → Bytes → Result Object → C → Result (Unit {0}) × C
  unfolding new_entry swap_value
  swap_read name key old new (err not_exist) s =
      if is_empty old then client.create (new_entry name key new) s else (err not_exist, s)
  swap_read name key old new (err e) s = (err e, s)
  swap_read name key old new (ok cm) s =
      swap_value cm key old new (lookup (base key) cm.binary_data) s

  unfoldable pub swap_named :
      (C → C) → Result Bytes → Bytes → Bytes → Bytes → C → Result (Unit {0}) × C
  unfolding swap_read
  swap_named interfere (err e) key old new s = (err e, s)
  swap_named interfere (ok name) key old new s =
      swap_read name key old new (client.get name s) (interfere s)

  unfoldable pub compare_and_swap : (C → C) → Bytes → Bytes → Bytes → C → Result (Unit {0}) × C
  unfolding swap_named
  compare_and_swap interfere key old new s = swap_named interfere (object_name key) key old new s
