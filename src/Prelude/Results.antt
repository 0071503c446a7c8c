-- ===== src/Prelude/Results.antt =====
-- Fallible operations. `fmt.Errorf("...: %w", err)` keeps the error that `errors.Is` finds, so a
-- wrapped error is the error itself; the texts around it are not modelled.
use mathlib.Core.Path.{◌≡◌, refl}
use mathlib.Core.Bool.{Bool, true, false}
use contrast.Prelude.ByteStrings.{Bytes}
use mathlib.Core.Option.{Option, none, some}
use Prim.Native.Nat.{ℕ}

pub data Error : Type 0 where
  -- faults of the file system or of the API server
  not_exist already_exists conflict unavailable : Error
  -- internal/history and its stores
  invalid_key : Bytes → Error
  has_changed : Bytes → Error
  key_not_found : Bytes → Error
  hash_mismatch : Bytes → Bytes → Error
  invalid_length : ℕ → Error
  bad_signature signing_failed : Error
  -- coordinator/internal/stateguard
  no_state stale_state concurrent_update : Error
  bad_manifest bad_policy_hash : Error
  no_policy : Bytes → Error
  key_generation bad_ca bad_seed : Error
  -- authorization
  no_keys no_signature invalid_signature bad_key no_peer peer_not_authorized : Error
  mixed_manifest insecure_not_allowed secure_not_allowed : Error
  -- the rest of the program
  no_peers missing_coordinator bad_host_data : Error
  nil_dereference index_out_of_range : Error
  other : ℕ → Error
  -- the model's own: a loop ran out of fuel
  out_of_fuel : Error

pub data Result {ℓ} (A : Type ℓ) : Type ℓ where
  ok : A → Result A
  err : Error → Result A

-- `if !test { return fault }`
abbrev pub guard : Bool → Error → Result (Unit {0})
guard false fault = err fault
guard true _ = ok tt

module _ {ℓ κ} {A : Type ℓ} {B : Type κ} where
  infixl 5 ◌>>=◌
  -- `if err != nil { return err }`, and the rest of the function otherwise.
  abbrev pub ◌>>=◌ : Result A → (A → Result B) → Result B
  err fault >>= rest = err fault
  ok value >>= rest = rest value

infixl 5 ◌>>◌
abbrev pub ◌>>◌ {κ} : {B : Type κ} → Result (Unit {0}) → Result B → Result B
check >> next = check >>= λ done. next

-- A success of the whole is one of both parts.
pub >>=-eq-ok {ℓ κ} :
    {A : Type ℓ} {B : Type κ} (first : Result A) (rest : A → Result B) {end : B}
    → first >>= rest ≡ ok end
    → (value : A) × (first ≡ ok value) × (rest value ≡ ok end)
>>=-eq-ok (err fault) rest whole = cc
>>=-eq-ok (ok value) rest whole = (value, refl, whole)

pub ok-injective {ℓ} : {A : Type ℓ} {a b : A} → ok a ≡ ok b → a ≡ b
ok-injective e = cc

-- A library call that fails, whose error is not looked at.
abbrev pub some_or {ℓ} : {A : Type ℓ} → Option A → Result A
some_or none = err (other 0)
some_or (some a) = ok a

pub some_or-eq-ok {ℓ} : {A : Type ℓ} (o : Option A) {a : A} → some_or o ≡ ok a → o ≡ some a
some_or-eq-ok none h = cc
some_or-eq-ok (some a) h = cc

pub guard-eq-ok : (b : Bool) (e : Error) {u : Unit {0}} → guard b e ≡ ok u → b ≡ true
guard-eq-ok true e h = refl
guard-eq-ok false e h = cc
