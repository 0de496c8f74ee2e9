-- ===== src/Common.antt =====
-- The names that the other modules share: the libraries' names, passed on, the tests on numbers,
-- lists indexed by native numbers, C memory as a function from offsets to bytes, and the result
-- of a kernel function, an error number or a value.
mod Tests
mod Lists
mod Bytes
mod Errno
pub use Tests.*
unfoldable pub use Lists.*
unfoldable pub use Bytes.*
pub use Errno.*
pub use Prim.Native.Nat.{ℕ, zero, suc, ◌+◌, ◌-◌, ◌*◌, ◌/◌, ◌%◌, ◌^◌, ◌≤◌, ◌<◌, min}
pub use mathlib.Core.Path.{◌≡◌, refl, sym, ap, ◌∙◌, fun_ext}
pub use mathlib.Core.Logic.{◌≢◌, ◌↔◌, ◌⊎◌, inl, inr}
pub use mathlib.Core.Bool.{Bool, true, false, not, ◌&&◌, ◌||◌}
pub use mathlib.Core.Option.{Option, none, some}
pub use mathlib.Core.List.{List, [], ◌∷◌, ◌++◌, map}
pub use native.Mathlib.Omega.{arith}
