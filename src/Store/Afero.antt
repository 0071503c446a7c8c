-- ===== src/Store/Afero.antt =====
-- internal/history/aferostore/aferostore.go: the store over a file system. The mutex makes each
-- method one step. Watch is not implemented there, and is not modelled.
use contrast.Prelude.{
  Bytes, bytes_equal, bytes_equal_iff, Result, ok, err, Error, not_exist, invalid_key, has_changed,
  if◌then◌else◌, Bool, true, false, not, ◌||◌, [], ◌∷◌, ◌≡◌, ◌≢◌, refl, arith,
}
use contrast.Store.{Store, StoreLaws, current}
use contrast.Store.Keys.{is_key, dir}

-- The methods of afero.Afero that the store calls.
pub record FileSystem (F : Type 0) : Type 0 where
  pub read_file : Bytes → F → Result Bytes
  pub stat : Bytes → F → Result (Unit {0})
  pub mkdir_all : Bytes → F → Result (Unit {0}) × F
  pub write_file : Bytes → Bytes → F → Result (Unit {0}) × F

-- Their documented behaviour: a successful write is read back, and no call touches another file.
pub record FileSystemLaws {F : Type 0} (fs : FileSystem F) : Type 0 where
  pub read-write :
      (k v : Bytes) (s : F)
      → (fs.write_file k v s).0 ≡ ok tt
      → fs.read_file k (fs.write_file k v s).1 ≡ ok v
  pub read-write_ne :
      (k j v : Bytes) (s : F) → k ≢ j → fs.read_file j (fs.write_file k v s).1 ≡ fs.read_file j s
  pub read-mkdir : (d j : Bytes) (s : F) → fs.read_file j (fs.mkdir_all d s).1 ≡ fs.read_file j s

abbrev is_empty : Bytes → Bool
is_empty [] = true
is_empty (b ∷ bs) = false

abbrev is_not_exist : Error → Bool
is_not_exist not_exist = true
is_not_exist _ = false

module _ {F : Type 0} (fs : FileSystem F) where
  unfoldable pub get : Bytes → F → Result Bytes
  get key s = if is_key key then fs.read_file key s else err (invalid_key key)

  -- MkdirAll, and WriteFile if that succeeded.
  unfoldable pub write_after : Bytes → Bytes → Result (Unit {0}) × F → Result (Unit {0}) × F
  write_after key v (err e, s) = (err e, s)
  write_after key v (ok _, s) = fs.write_file key v s

  unfoldable pub set : Bytes → Bytes → F → Result (Unit {0}) × F
  unfolding write_after
  set key v s =
      if is_key key
      then write_after key v (fs.mkdir_all (dir key) s)
      else (err (invalid_key key), s)

  unfoldable pub has_stat : Result (Unit {0}) → Result Bool
  has_stat (ok _) = ok true
  has_stat (err e) = if is_not_exist e then ok false else err e

  unfoldable pub has : Bytes → F → Result Bool
  unfolding has_stat
  has key s = if is_key key then has_stat (fs.stat key s) else err (invalid_key key)

  unfoldable pub swap_read : Bytes → Bytes → Bytes → Result Bytes → F → Result (Unit {0}) × F
  unfolding write_after
  swap_read key old new (ok v) s =
      if bytes_equal v old
      then write_after key new (fs.mkdir_all (dir key) s)
      else (err (has_changed key), s)
  -- A missing file counts as empty.
  swap_read key old new (err e) s =
      if not (is_not_exist e) || not (is_empty old)
      then (err e, s)
      else if bytes_equal [] old
      then write_after key new (fs.mkdir_all (dir key) s)
      else (err (has_changed key), s)

  unfoldable pub compare_and_swap : Bytes → Bytes → Bytes → F → Result (Unit {0}) × F
  unfolding swap_read
  compare_and_swap key old new s =
      if is_key key
      then swap_read key old new (fs.read_file key s) s
      else (err (invalid_key key), s)

  unfoldable pub afero_store : Store F
  unfolding get set has compare_and_swap
  afero_store = record { get = get; set = set; has = has; compare_and_swap = compare_and_swap }

  module _ (laws : FileSystemLaws fs) where
    write_after_lem :
        (k v : Bytes) (r : Result (Unit {0}) × F)
        → (write_after k v r).0 ≡ ok tt
        → fs.read_file k (write_after k v r).1 ≡ ok v
    unfolding write_after
    write_after_lem k v (ok _, s) e = laws.read-write k v s e
    write_after_lem k v (err x, s) e = cc

    write_after_ne :
        (k j v : Bytes) (r : Result (Unit {0}) × F)
        → k ≢ j
        → fs.read_file j (write_after k v r).1 ≡ fs.read_file j r.1
    unfolding write_after
    write_after_ne k j v (ok _, s) ne = laws.read-write_ne k j v s ne
    write_after_ne k j v (err x, s) ne = refl

    swap_read_expected :
        (k old new : Bytes) (r : Result Bytes) (s : F)
        → (swap_read k old new r s).0 ≡ ok tt
        → current r ≡ ok old
    unfolding swap_read
    swap_read_expected k old new (ok v) s e = ground (arith, bytes_equal_iff v old)
    swap_read_expected k old new (err not_exist) s e = ground (arith, bytes_equal_iff [] old)
    swap_read_expected k old new (err x) s e = cc

    swap_read_lem :
        (k old new : Bytes) (r : Result Bytes) (s : F)
        → (swap_read k old new r s).0 ≡ ok tt
        → fs.read_file k (swap_read k old new r s).1 ≡ ok new
    unfolding swap_read
    swap_read_lem k old new (ok v) s e =
        ground (arith, write_after_lem k new (fs.mkdir_all (dir k) s))
    swap_read_lem k old new (err not_exist) s e =
        ground (arith, write_after_lem k new (fs.mkdir_all (dir k) s))
    swap_read_lem k old new (err x) s e = cc

    swap_read_ne :
        (k j old new : Bytes) (r : Result Bytes) (s : F)
        → k ≢ j
        → fs.read_file j (swap_read k old new r s).1 ≡ fs.read_file j s
    unfolding swap_read
    swap_read_ne k j old new (ok v) s ne =
        ground
          (arith, write_after_ne k j new (fs.mkdir_all (dir k) s) ne, laws.read-mkdir (dir k) j s)
    swap_read_ne k j old new (err not_exist) s ne =
        ground
          (arith, write_after_ne k j new (fs.mkdir_all (dir k) s) ne, laws.read-mkdir (dir k) j s)
    swap_read_ne k j old new (err x) s ne = refl

    -- Over a file system that keeps what is written, the store keeps its interface's promises.
    pub afero_store-StoreLaws : StoreLaws afero_store
    unfolding afero_store
    afero_store-StoreLaws = record {
      get-set = λ k v s e. ground (arith, write_after_lem k v (fs.mkdir_all (dir k) s));
      get-set_ne = λ k j v s ne.
          ground
            (arith, write_after_ne k j v (fs.mkdir_all (dir k) s) ne, laws.read-mkdir (dir k) j s);
      cas_expected =
          λ k old new s e. ground (arith, swap_read_expected k old new (fs.read_file k s) s);
      get-cas = λ k old new s e. ground (arith, swap_read_lem k old new (fs.read_file k s) s);
      get-cas_ne =
          λ k j old new s ne. ground (arith, swap_read_ne k j old new (fs.read_file k s) s ne);
    }
