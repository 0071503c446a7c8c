-- ===== src/Store.antt =====
-- internal/history/history.go, `type Store interface`: the key-value store under the history.
-- An implementation works on a state `S` of its own; a method returns its result and the new state.
pub mod Keys
pub mod Afero
pub mod ConfigMap
use contrast.Prelude.{Bytes, Result, ok, err, not_exist, [], ◌≡◌, ◌≢◌, Bool}

pub record Store (S : Type 0) : Type 0 where
  pub get : Bytes → S → Result Bytes
  pub set : Bytes → Bytes → S → Result (Unit {0}) × S
  pub has : Bytes → S → Result Bool
  pub compare_and_swap : Bytes → Bytes → Bytes → S → Result (Unit {0}) × S

-- The value that CompareAndSwap compares: a missing key counts as empty.
abbrev pub current : Result Bytes → Result Bytes
current (ok v) = ok v
current (err not_exist) = ok []
current (err e) = err e

-- What the interface's comments promise. A call that fails promises nothing about what it wrote,
-- but that a value stored under another key is still there.
pub record StoreLaws {S : Type 0} (store : Store S) : Type 0 where
  pub get-set :
      (k v : Bytes) (s : S) → (store.set k v s).0 ≡ ok tt → store.get k (store.set k v s).1 ≡ ok v
  pub get-set_ne : (k j v : Bytes) (s : S) → k ≢ j → store.get j (store.set k v s).1 ≡ store.get j s
  pub cas_expected :
      (k old new : Bytes) (s : S)
      → (store.compare_and_swap k old new s).0 ≡ ok tt
      → current (store.get k s) ≡ ok old
  pub get-cas :
      (k old new : Bytes) (s : S)
      → (store.compare_and_swap k old new s).0 ≡ ok tt
      → store.get k (store.compare_and_swap k old new s).1 ≡ ok new
  pub get-cas_ne :
      (k j old new : Bytes) (s : S)
      → k ≢ j
      → store.get j (store.compare_and_swap k old new s).1 ≡ store.get j s
