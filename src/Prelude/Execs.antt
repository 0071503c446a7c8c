-- ===== src/Prelude/Execs.antt =====
-- Operations that change a state and may fail. What was written before a failure stays written, so
-- the state comes back beside the error too.
use mathlib.Core.Path.{◌≡◌, refl}
use native.Mathlib.Omega.{arith}
use contrast.Prelude.Results.{Result, ok, err}

abbrev pub Exec : Type 0 → Type 0 → Type 0
Exec H A = H → Result A × H

module _ {H A : Type 0} where
  abbrev pub pure : A → Exec H A
  pure a h = (ok a, h)

  abbrev pub lift : Result A → Exec H A
  lift r h = (r, h)

  abbrev pub asks : (H → Result A) → Exec H A
  asks f h = (f h, h)

module _ {H A B : Type 0} where
  abbrev pub continue : (A → Exec H B) → Result A × H → Result B × H
  continue f (ok a, h) = f a h
  continue f (err e, h) = (err e, h)

  infixl 5 ◌>>=◌
  -- One step, and the rest of the chain if it succeeded.
  abbrev pub ◌>>=◌ : Exec H A → (A → Exec H B) → Exec H B
  ◌>>=◌ m f h = continue f (m h)

  pub continue_ok :
      (f : A → Exec H B) (p : Result A × H) {b : B}
      → (continue f p).0 ≡ ok b
      → (a : A) × (p.0 ≡ ok a) × (continue f p ≡ f a p.1)
  continue_ok f (ok a, h) e = (a, refl, refl)
  continue_ok f (err x, h) e = cc

  -- The same, with the success of the rest.
  pub continue_rest :
      (f : A → Exec H B) (p : Result A × H) {b : B}
      → (continue f p).0 ≡ ok b
      → (a : A) × (p.0 ≡ ok a) × ((f a p.1).0 ≡ ok b)
  continue_rest f (ok a, h) e = (a, refl, e)
  continue_rest f (err x, h) e = cc

  -- A chain that succeeds has succeeded in its first step, and goes on from the state that it left.
  pub bind_ok :
      (m : Exec H A) (f : A → Exec H B) (h : H) {b : B}
      → ((m >>= f) h).0 ≡ ok b
      → (a : A) × ((m h).0 ≡ ok a) × ((m >>= f) h ≡ f a (m h).1)
  bind_ok m f h e = continue_ok f (m h) e

  pub continue_of_ok :
      (f : A → Exec H B) (p : Result A × H) (a : A) → p.0 ≡ ok a → continue f p ≡ f a p.1
  continue_of_ok f (ok a', h) a e = ground arith
  continue_of_ok f (err x, h) a e = cc

infixl 5 ◌>>◌
abbrev pub ◌>>◌ : {H B : Type 0} → Exec H (Unit {0}) → Exec H B → Exec H B
m >> k = m >>= λ _. k
