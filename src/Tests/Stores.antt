-- ===== src/Tests/Stores.antt =====
-- The stores and the history, at concrete inputs.
use contrast.Prelude.{
  Bytes, codes, Map, lookup, insert, lookup-insert_self, Result, ok, err, not_exist, already_exists,
  conflict, ok-injective, Option, none, some, Bool, true, false, ℕ, suc, [], ◌∷◌, ◌==◌, ◌≡◌, refl,
  sym, ◌∙◌, ap, arith,
}
use contrast.Store.{StoreLaws}
use contrast.Store.Keys
use contrast.Store.Keys.{object_name-injective}
use contrast.Store.Afero.{afero_store-StoreLaws}
use contrast.Store.ConfigMap
use contrast.Store.ConfigMap.{Object, Client, ClientLaws, Versioned}
use contrast.Store.ConfigMap.Atomic.{Swapped, compare_and_swap_atomic}
use contrast.Tests.Toys.{toy_files, toy_files-FileSystemLaws, toy_store}

afero_store-StoreLaws_example : StoreLaws toy_store
afero_store-StoreLaws_example = afero_store-StoreLaws toy_files toy_files-FileSystemLaws

-- An API server: versions and data under the names.
abbrev Server : Type 0
Server = Map (ℕ × Map Bytes)

abbrev found : Bytes → Option (ℕ × Map Bytes) → Result Object
found n none = err not_exist
found n (some (v, d)) = ok (record { name = n; resource_version = v; binary_data = d })

abbrev created : Object → Option (ℕ × Map Bytes) → Server → Result (Unit {0}) × Server
created o none s = (ok tt, insert o.name (1, o.binary_data) s)
created o (some x) s = (err already_exists, s)

abbrev replaced_if : Bool → Object → ℕ → Server → Result (Unit {0}) × Server
replaced_if true o v s = (ok tt, insert o.name (suc v, o.binary_data) s)
replaced_if false o v s = (err conflict, s)

abbrev replaced : Object → Option (ℕ × Map Bytes) → Server → Result (Unit {0}) × Server
replaced o none s = (err not_exist, s)
replaced o (some (v, d)) s = replaced_if (v == o.resource_version) o v s

unfoldable server : Client Server
unfolding lookup insert
server = record {
  get = λ n s. found n (lookup n s);
  create = λ o s. created o (lookup o.name s) s;
  update = λ o s. replaced o (lookup o.name s) s;
}

found_name : (n : Bytes) (x : Option (ℕ × Map Bytes)) (o : Object) → found n x ≡ ok o → o.name ≡ n
found_name n none o e = cc
found_name n (some (v, d)) o e = ap (λ (q : Object). q.name) (sym (ok-injective e))

created_lem :
    (o : Object) (x : Option (ℕ × Map Bytes)) (s : Server)
    → (created o x s).0 ≡ ok tt
    → (found o.name x ≡ err not_exist)
      × ((v : ℕ) × (found o.name (lookup o.name (created o x s).1)
            ≡ ok (record o { resource_version = v })))
created_lem o none s e =
    (refl, (1, ap (found o.name) (lookup-insert_self o.name (1, o.binary_data) s)))
created_lem o (some x) s e = cc

replaced_lem :
    (o : Object) (x : Option (ℕ × Map Bytes)) (s : Server)
    → (replaced o x s).0 ≡ ok tt
    → ((old : Object) × (found o.name x ≡ ok old) × (old.resource_version ≡ o.resource_version))
      × ((v : ℕ) × (found o.name (lookup o.name (replaced o x s).1)
            ≡ ok (record o { resource_version = v })))
replaced_lem o none s e = cc
replaced_lem o (some (v, d)) s e = go (v == o.resource_version) refl e
  where
    go :
        (b : Bool)
        → (v == o.resource_version) ≡ b
        → (replaced_if b o v s).0 ≡ ok tt
        → ((old : Object) × (found o.name (some (v, d)) ≡ ok old)
            × (old.resource_version ≡ o.resource_version))
          × ((w : ℕ) × (found o.name (lookup o.name (replaced_if b o v s).1)
                ≡ ok (record o { resource_version = w })))
    go true q e' = (
      (record { name = o.name; resource_version = v; binary_data = d }, refl, ground arith),
      (suc v, ap (found o.name) (lookup-insert_self o.name (suc v, o.binary_data) s)),
    )
    go false q e' = cc

server-ClientLaws : ClientLaws server
unfolding server
server-ClientLaws = record {
  name-get = λ n o s e. found_name n (lookup n s) o e;
  create_fresh = λ o s e. (created_lem o (lookup o.name s) s e).0;
  get-create = λ o s e. (created_lem o (lookup o.name s) s e).1;
  update_version = λ o s e. (replaced_lem o (lookup o.name s) s e).0;
  get-update = λ o s e. (replaced_lem o (lookup o.name s) s e).1;
}

-- Nobody else is there.
alone : Versioned server (λ s. s)
alone = record { same = λ name a b s e e' v. ok-injective (sym e ∙ e') }

abbrev key : Bytes
key = codes "transitions/latest"

abbrev first_server : Server
first_server = (ConfigMap.set server (λ s. s) key (1 ∷ []) []).1

swapped : (ConfigMap.compare_and_swap server (λ s. s) key (1 ∷ []) (2 ∷ []) first_server).0 ≡ ok tt
unfolding server lookup insert Keys.is_key Keys.base Keys.object_name ConfigMap.new_entry
    ConfigMap.set_read ConfigMap.set_named ConfigMap.set ConfigMap.swap_value ConfigMap.swap_read
    ConfigMap.swap_named ConfigMap.compare_and_swap
swapped = refl

compare_and_swap_atomic_example :
    Swapped server key
      (1 ∷ [])
      (2 ∷ [])
      first_server
      (ConfigMap.compare_and_swap server (λ s. s) key (1 ∷ []) (2 ∷ []) first_server)
compare_and_swap_atomic_example =
    compare_and_swap_atomic server key server-ClientLaws (1 ∷ []) (2 ∷ []) (λ s. s) first_server
      alone swapped
