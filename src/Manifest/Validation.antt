-- ===== src/Manifest/Validation.antt =====
-- internal/manifest/manifest.go: ValidationError, and how errors.As walks a tree of errors.
use Prim.Native.String.{String}
use contrast.Prelude.{Option, none, some, Bool, true, false, ◌&&◌, ◌||◌, ℕ, ◌≡◌, refl, arith}

-- The JSON path of a ValidationError.
pub data Location : Type 0 where
  at : String → Location
  item : String → ℕ → Location

-- A Go error that is not nil. ExpectedMissingReferenceValueError has no Unwrap method.
mutual
  pub data Fault : Type 0 where
    plain : Fault
    expected_missing : Fault
    invalid : Location → Faults → Fault
    joined : Faults → Fault

  pub data Faults : Type 0 where
    nil : Faults
    cons : Fault → Faults → Faults

abbrev pub append : Faults → Faults → Faults
append nil gs = gs
append (cons f fs) gs = cons f (append fs gs)

abbrev pub faults_of : Option Fault → Faults
faults_of none = nil
faults_of (some f) = cons f nil

-- errors.Join
abbrev pub join : Faults → Option Fault
join nil = none
join (cons f fs) = some (joined (cons f fs))

-- The first answer.
abbrev pub first_of_two : Option Bool → Option Bool → Option Bool
first_of_two (some b) o = some b
first_of_two none o = o

abbrev or_true : Option Bool → Bool
or_true none = true
or_true (some b) = b

unfoldable mutual
  -- flattenValidationError
  pub flatten : Fault → Faults
  flatten plain = cons plain nil
  flatten expected_missing = cons expected_missing nil
  flatten (invalid l fs) = cons (invalid l fs) nil
  flatten (joined fs) = flatten_all fs

  pub flatten_all : Faults → Faults
  flatten_all nil = nil
  flatten_all (cons f fs) = append (flatten f) (flatten_all fs)

abbrev invalid_at : Location → Faults → Option Fault
invalid_at l nil = none
invalid_at l (cons f fs) = some (invalid l (cons f fs))

-- newValidationError
unfoldable pub new_validation_error : Location → Faults → Option Fault
unfolding flatten_all
new_validation_error l fs = invalid_at l (flatten_all fs)

unfoldable mutual
  -- errors.As(err, &emrve)
  pub as_missing : Fault → Bool
  as_missing plain = false
  as_missing expected_missing = true
  as_missing (invalid l fs) = any_missing fs
  as_missing (joined fs) = any_missing fs

  pub any_missing : Faults → Bool
  any_missing nil = false
  any_missing (cons f fs) = as_missing f || any_missing fs

unfoldable mutual
  -- errors.As(err, &ve), which finds the first ValidationError, and OnlyExpectedMissingReferenceValues
  -- of what it finds.
  pub as_validation : Fault → Option Bool
  as_validation plain = none
  as_validation expected_missing = none
  as_validation (invalid l fs) = some (only_expected fs)
  as_validation (joined fs) = first_validation fs

  pub first_validation : Faults → Option Bool
  first_validation nil = none
  first_validation (cons f fs) = first_of_two (as_validation f) (first_validation fs)

  -- OnlyExpectedMissingReferenceValues
  pub only_expected : Faults → Bool
  only_expected nil = true
  only_expected (cons f fs) = or_true (as_validation f) && as_missing f && only_expected fs

mutual
  -- What the comment of OnlyExpectedMissingReferenceValues says: every error in the tree that is no
  -- ValidationError is an expected one, and there is one below each ValidationError.
  pub all_expected : Fault → Bool
  all_expected plain = false
  all_expected expected_missing = true
  all_expected (invalid l nil) = false
  all_expected (invalid l (cons f fs)) = all_expected f && all_expected_list fs
  all_expected (joined nil) = false
  all_expected (joined (cons f fs)) = all_expected f && all_expected_list fs

  pub all_expected_list : Faults → Bool
  all_expected_list nil = true
  all_expected_list (cons f fs) = all_expected f && all_expected_list fs

unfoldable mutual
  -- No joined errors, as newValidationError leaves them.
  pub is_flat : Fault → Bool
  is_flat plain = true
  is_flat expected_missing = true
  is_flat (invalid l fs) = is_flat_list fs
  is_flat (joined fs) = false

  pub is_flat_list : Faults → Bool
  is_flat_list nil = true
  is_flat_list (cons f fs) = is_flat f && is_flat_list fs

both : {a b c : Bool} (v m : Bool) → (v && m) ≡ a → b ≡ c → (v && m && b) ≡ (a && c)
both true m p q = ground arith
both false m p q = ground arith

absorb : (v m r y a b : Bool) → (v && m) ≡ a → r ≡ b → ((v && m && r) && (m || y)) ≡ (a && b)
absorb true true r y a b p q = ground arith
absorb true false r y a b p q = ground arith
absorb false m r y a b p q = ground arith

mutual
  unfolding as_missing any_missing as_validation first_validation only_expected all_expected
      all_expected_list is_flat is_flat_list

  expected_of_flat :
      (f : Fault) → is_flat f ≡ true → (or_true (as_validation f) && as_missing f) ≡ all_expected f
  expected_of_flat plain h = refl
  expected_of_flat expected_missing h = refl
  expected_of_flat (joined fs) h = cc
  expected_of_flat (invalid l nil) h = refl
  expected_of_flat (invalid l (cons f fs)) h =
      absorb (or_true (as_validation f)) (as_missing f) (only_expected fs) (any_missing fs)
        (all_expected f) (all_expected_list fs) (expected_of_flat f (ground arith))
        (only_expected_of_flat fs (ground arith))

  only_expected_of_flat :
      (fs : Faults) → is_flat_list fs ≡ true → only_expected fs ≡ all_expected_list fs
  only_expected_of_flat nil h = refl
  only_expected_of_flat (cons f fs) h =
      both (or_true (as_validation f)) (as_missing f) (expected_of_flat f (ground arith))
        (only_expected_of_flat fs (ground arith))

-- Of errors among which none is joined, OnlyExpectedMissingReferenceValues says what its comment
-- says: that every nested error is an expected missing value.
pub only_expected_lem :
    (fs : Faults) → is_flat_list fs ≡ true → only_expected fs ≡ all_expected_list fs
only_expected_lem fs h = only_expected_of_flat fs h
