-- ===== src/Base.antt =====
-- The names that the other modules share: the libraries', passed on, and those of the children:
-- Boolean tests, signed integers, 64-bit words, texts, lists and results.
mod Tests
mod Int
mod Word
mod Texts
mod Lists
mod Results
mod Sorting
mod Keys
mod Missing
mod Totals
mod Instants
pub use Tests.*
unfoldable pub use Int.*
unfoldable pub use Word.*
unfoldable pub use Texts.*
pub use Lists.*
pub use Results.*
unfoldable pub use Missing.*
unfoldable pub use Totals.*
unfoldable pub use Instants.*
pub use Keys.*
unfoldable pub use Sorting.*
pub use Prim.Native.Nat.{ℕ, zero, suc, ◌+◌, ◌-◌, ◌*◌, ◌/◌, ◌%◌, ◌^◌, ◌≤◌, ◌<◌}
pub use mathlib.Core.Path.{◌≡◌, refl, sym, ap, ◌∙◌, subst}
pub use mathlib.Core.Logic.{◌≢◌, ◌↔◌, ◌⊎◌, inl, inr}
pub use mathlib.Core.Bool.{Bool, true, false, not, ◌&&◌, ◌||◌}
pub use mathlib.Core.Option.{Option, none, some}
pub use mathlib.Core.List.{List, [], ◌∷◌, ◌++◌, map}
pub use native.Mathlib.Omega.{arith}
