-- ===== src/Prelude/Endian.antt =====
-- Little-endian numbers of so many bytes, as encoding/binary writes and reads them.
use Prim.Native.Nat.{ℕ, zero, suc, ◌+◌, ◌*◌, ◌/◌, ◌%◌, ◌<◌}
use mathlib.Core.Path.{◌≡◌, refl, ap}
use mathlib.Core.List.{[], ◌∷◌}
use native.Mathlib.Omega.{arith}
use contrast.Prelude.Lists.{length}
use contrast.Prelude.ByteStrings.{Bytes}

unfoldable pub append_uint : ℕ → ℕ → Bytes
append_uint zero n = []
append_uint (suc k) n = n % 256 ∷ append_uint k (n / 256)

unfoldable pub uint : Bytes → ℕ
uint [] = 0
uint (b ∷ bs) = b + 256 * uint bs

-- The numbers of so many bytes are those below.
abbrev pub capacity : ℕ → ℕ
capacity zero = 1
capacity (suc k) = 256 * capacity k

pub uint-append_uint : (k n : ℕ) → n < capacity k → uint (append_uint k n) ≡ n
unfolding uint append_uint
uint-append_uint zero n h = omega arith
uint-append_uint (suc k) n h = omega (arith, uint-append_uint k (n / 256) (omega arith))

pub length-append_uint : (k n : ℕ) → length (append_uint k n) ≡ k
unfolding append_uint
length-append_uint zero n = refl
length-append_uint (suc k) n = ap suc (length-append_uint k (n / 256))
