-- ===== src/Common.antt =====
-- The names that the other modules share: the libraries' names passed on, Boolean tests, lists
-- measured by native numbers, Go's `int` and Go's maps.
mod Tests
mod Strings
mod Lists
mod Sequence
mod Int
mod Maps
mod Entries
pub mod Result
pub use Tests.*
pub use Lists.*
unfoldable pub use Sequence.{Advances}
pub use Sequence.{Passes, Advances-nil, Advances-fails, Advances-next}
unfoldable pub use Int.*
unfoldable pub use Maps.*
pub use Entries.*
unfoldable pub use Strings.*
pub use Prim.Native.Nat.{ℕ, zero, suc, ◌+◌, ◌-◌, ◌≤◌, ◌<◌}
pub use Prim.Native.String.{String}
pub use mathlib.Core.Path.{◌≡◌, refl, sym, ap, subst, ◌∙◌}
pub use mathlib.Core.Logic.{◌≢◌, ◌↔◌, ◌⊎◌, inl, inr}
pub use mathlib.Core.Bool.{Bool, true, false, not, ◌&&◌, ◌||◌}
pub use mathlib.Core.Option.{Option, none, some}
pub use mathlib.Core.List.{List, [], ◌∷◌, ◌++◌, map}
pub use native.Mathlib.Omega.{arith}
pub use Prim.Native.String.{◌++◌ as concat}
pub use text.Mathlib.Text.{◌==◌ as str_eq}
pub use text.Mathlib.TextEquality.{eq_iff}
