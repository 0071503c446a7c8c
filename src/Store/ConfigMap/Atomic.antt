-- ===== src/Store/ConfigMap/Atomic.antt =====
-- CompareAndSwap of internal/history/configmapstore/configmapstore.go is atomic, although it is two
-- calls to the API server.
use contrast.Prelude.{
  Bytes, bytes_equal, eq_of_bytes_equal, lookup, insert, lookup-insert_self, Result, ok, err,
  not_exist, Option, none, some, [], ◌∷◌, ◌≡◌, refl, sym, ◌∙◌, ap, true, subst, Bool-cases, inl,
  inr,
}
use contrast.Store.{current}
use contrast.Store.Keys.{object_name, base}
use contrast.Store.ConfigMap.{
  Object, Client, ClientLaws, Versioned, is_empty, or_nil, new_entry, get, swap_value, swap_read,
  swap_named, compare_and_swap,
}

empty_of : (b : Bytes) → is_empty b ≡ true → b ≡ []
empty_of [] e = refl
empty_of (x ∷ b) e = cc

module _ {C : Type 0} (client : Client C) (key : Bytes) where
  get_ok :
      (name : Bytes) (o : Object) (s : C)
      → object_name key ≡ ok name
      → client.get name s ≡ ok o
      → get client key s ≡ ok (or_nil (lookup (base key) o.binary_data))
  unfolding get
  get_ok name o s n g = rw (n, g)

  get_missing :
      (name : Bytes) (s : C)
      → object_name key ≡ ok name
      → client.get name s ≡ err not_exist
      → get client key s ≡ err not_exist
  unfolding get
  get_missing name s n g = rw (n, g)

  -- The write was at a moment at which the key had the expected value, and wrote the new one.
  abbrev pub Swapped : Bytes → Bytes → C → Result (Unit {0}) × C → Type 0
  Swapped old new before r =
      (current (get client key before) ≡ ok old) × (get client key r.1 ≡ ok new)

  module _ (laws : ClientLaws client) (old new : Bytes) where
    swap_missing :
        (name : Bytes) (s : C)
        → object_name key ≡ ok name
        → (client.create (new_entry name key new) s).0 ≡ ok tt
        → old ≡ []
        → Swapped old new s (client.create (new_entry name key new) s)
    unfolding new_entry
    swap_missing name s n e z =
        let (v, made) = laws.get-create (new_entry name key new) s e in
        (
          ap current (get_missing name s n (laws.create_fresh (new_entry name key new) s e))
              ∙ ap ok (sym z),
          get_ok name _ _ n made ∙ ap (λ o. ok (or_nil o)) (lookup-insert_self (base key) new []),
        )

    -- The object with the new value.
    abbrev updated : Object → Object
    updated cm = record cm { binary_data = insert (base key) new cm.binary_data }

    swap_updated :
        (v : Bytes) (cm : Object) (s : C)
        → object_name key ≡ ok cm.name
        → ((o : Object)
            → client.get cm.name s ≡ ok o
            → o.resource_version ≡ cm.resource_version
            → cm ≡ o)
        → lookup (base key) cm.binary_data ≡ some v
        → v ≡ old
        → (client.update (updated cm) s).0 ≡ ok tt
        → Swapped old new s (client.update (updated cm) s)
    swap_updated v cm s n fresh l w e =
        let (o, got, version) = laws.update_version (updated cm) s e in
        let (u, stored) = laws.get-update (updated cm) s e in
        (
          ap current (get_ok cm.name o s n got)
              ∙ ap (λ (c : Object). ok (or_nil (lookup (base key) c.binary_data)))
                  (sym (fresh o got version))
              ∙ ap (λ x. ok (or_nil x)) l
              ∙ ap ok w,
          get_ok cm.name _ _ n stored
              ∙ ap (λ x. ok (or_nil x)) (lookup-insert_self (base key) new cm.binary_data),
        )

    abbrev IsFresh : Result Object → C → Type 0
    IsFresh r s =
        (cm : Object)
        → r ≡ ok cm
        → (object_name key ≡ ok cm.name)
          × ((o : Object)
              → client.get cm.name s ≡ ok o
              → o.resource_version ≡ cm.resource_version
              → cm ≡ o)

    swap_value-Swapped :
        (cm : Object) (o : Option Bytes) (s : C)
        → IsFresh (ok cm) s
        → lookup (base key) cm.binary_data ≡ o
        → (swap_value client cm key old new o s).0 ≡ ok tt
        → Swapped old new s (swap_value client cm key old new o s)
    unfolding swap_value
    swap_value-Swapped cm none s f l e = cc
    swap_value-Swapped cm (some v) s f l e = elim (Bool-cases (bytes_equal v old)) [
      | inl same ↦
          let e' = rw same at e in
          rw same
            (swap_updated v cm s (f cm refl).0 (f cm refl).1 l (eq_of_bytes_equal v old same) e')
      | inr other ↦ let e' = rw other at e in cc
    ]

    swap_read-Swapped :
        (name : Bytes) (r : Result Object) (s : C)
        → object_name key ≡ ok name
        → IsFresh r s
        → (swap_read client name key old new r s).0 ≡ ok tt
        → Swapped old new s (swap_read client name key old new r s)
    unfolding swap_read
    swap_read-Swapped name (ok cm) s n f e =
        swap_value-Swapped cm (lookup (base key) cm.binary_data) s f refl e
    swap_read-Swapped name (err not_exist) s n f e = elim (Bool-cases (is_empty old)) [
      | inl z ↦ let e' = rw z at e in rw z (swap_missing name s n e' (empty_of old z))
      | inr z ↦ let e' = rw z at e in cc
    ]
    swap_read-Swapped name (err x) s n f e = cc

    -- Whatever others do between the two calls, if it gives the objects that it changes another
    -- resource version, a CompareAndSwap that succeeds has replaced the
    -- expected value by the new one: the key held the expected value (or was missing, where that is
    -- empty) when the write was made, and holds the new one after it.
    pub compare_and_swap_atomic :
        (interfere : C → C) (s : C)
        → Versioned client interfere
        → (compare_and_swap client interfere key old new s).0 ≡ ok tt
        → Swapped old new (interfere s) (compare_and_swap client interfere key old new s)
    unfolding compare_and_swap
    compare_and_swap_atomic interfere s versioned e = go (object_name key) refl e
      where
        go :
            (r : Result Bytes)
            → object_name key ≡ r
            → (swap_named client interfere r key old new s).0 ≡ ok tt
            → Swapped old new (interfere s) (swap_named client interfere r key old new s)
        go (err x) n e = cc
        go (ok name) n e =
            swap_read-Swapped name (client.get name s) (interfere s) n
              (λ cm g.
                let nm = laws.name-get name cm s g in
                (
                  n ∙ ap ok (sym nm),
                  λ o got version.
                      versioned.same name cm o s g
                        (subst (λ k. client.get k (interfere s) ≡ ok o) nm got) version,
                ))
              e
