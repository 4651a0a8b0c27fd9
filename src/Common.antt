-- ===== src/Common.antt =====
-- The names that the other modules share: the libraries', passed on, and the helpers of the
-- children. Go's maps are `Dict`, its strings `Text` (bytes), its 64-bit integers `ℤ` with `wrap`.
mod Tests
mod Int
mod Key
mod Maps
mod Strings
mod Sorting
mod Results
mod Ascii
mod Decimal
mod Paths
mod Sets
pub use Tests.*
unfoldable pub use Int.*
pub use Key.*
unfoldable pub use Maps.*
unfoldable pub use Strings.*
pub use Sorting.*
unfoldable pub use Results.*
unfoldable pub use Ascii.*
unfoldable pub use Paths.*
pub use Decimal.*
pub use Sets.*
pub use Prim.Native.Nat.{ℕ, zero, suc, ◌+◌, ◌-◌, ◌*◌, ◌/◌, ◌%◌, ◌^◌, ◌≤◌, ◌<◌}
pub use mathlib.Core.Path.{◌≡◌, refl, sym, ap, ◌∙◌}
pub use mathlib.Core.Logic.{◌≢◌, ◌↔◌, ◌⊎◌, inl, inr}
pub use mathlib.Core.Bool.{Bool, true, false, not, ◌&&◌, ◌||◌}
pub use mathlib.Core.Option.{Option, none, some}
pub use mathlib.Core.List.{List, [], ◌∷◌, ◌++◌, map}
pub use native.Mathlib.Omega.{arith}
