-- ===== src/Prelude.antt =====
-- Names that every component shares: the libraries', passed on, and those of the children.
pub mod Tests
pub mod Lists
pub mod ByteStrings
pub mod Assoc
pub mod Results
pub mod Decimals
pub mod Endian
pub mod Execs
pub use Tests.*
pub use Lists.*
pub use ByteStrings.*
unfoldable pub use Assoc.{lookup, insert}
pub use Assoc.{Map, lookup-insert, lookup-insert_self}
pub use Results.*
pub use Prim.Native.Nat.{ℕ, zero, suc, ◌+◌, ◌-◌, ◌*◌, ◌/◌, ◌%◌, ◌^◌, ◌≤◌, ◌<◌}
pub use Prim.Native.String.{String}
pub use mathlib.Core.Path.{◌≡◌, refl, sym, ap, ◌∙◌, subst, fun_ext}
pub use mathlib.Core.Logic.{◌≢◌, ◌↔◌, ◌⊎◌, inl, inr}
pub use mathlib.Core.Bool.{Bool, true, false, not, ◌&&◌, ◌||◌, false≢true}
pub use mathlib.Core.Option.{Option, none, some}
pub use mathlib.Core.List.{List, [], ◌∷◌, ◌++◌, map, reverse}
pub use mathlib.Core.List.{append-nil, append_assoc, reverse-append}
pub use native.Mathlib.Omega.{arith}
