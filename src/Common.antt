-- ===== src/Common.antt =====
-- Names that the other modules share: the libraries' names, passed on, and those of the children:
-- Boolean tests, lists over the native numbers, results, fixed-width words. No code of the
-- repository is modelled here.
pub mod Tests
pub mod Lists
pub mod Results
pub mod Words
pub mod Bits
unfoldable pub use Tests.*
pub use Lists.*
unfoldable pub use Results.*
pub use Words.*
pub use Prim.Native.Nat.{ℕ, zero, suc, ◌+◌, ◌-◌, ◌*◌, ◌/◌, ◌%◌, ◌^◌, ◌≤◌, ◌<◌}
pub use Prim.Native.Nat.{bit_and, bit_or, min}
pub use mathlib.Core.Path.{◌≡◌, refl, sym, ap, ◌∙◌}
pub use mathlib.Core.Logic.{◌≢◌, ◌↔◌, ◌⊎◌, inl, inr}
pub use mathlib.Core.Bool.{Bool, true, false, not, ◌&&◌, ◌||◌}
pub use mathlib.Core.Option.{Option, none, some}
pub use mathlib.Core.List.{List, [], ◌∷◌, ◌++◌, map}
pub use native.Mathlib.Omega.{arith}
