-- ===== src/Shared.antt =====
-- The names that every part shares: the libraries', passed on, and those of the children below
-- (Boolean tests, signed integers, lists, maps, byte strings).
mod Tests
mod Int
mod Lists
mod Maps
mod Sorting
mod Text
mod Texts
unfoldable pub use Tests.*
unfoldable pub use Int.*
unfoldable pub use Lists.*
unfoldable pub use Maps.*
unfoldable pub use Sorting.*
unfoldable pub use Text.*
unfoldable pub use Texts.*
unfoldable pub use Text.Decimal.*
unfoldable pub use Text.Fields.*
unfoldable pub use Text.Lines.*
unfoldable pub use Text.Suffix.*
pub use Prim.Native.Nat.{ℕ, zero, suc, ◌+◌, ◌-◌, ◌*◌, ◌/◌, ◌%◌, ◌^◌, ◌≤◌, ◌<◌, min, max}
pub use mathlib.Core.Path.{◌≡◌, refl, sym, ap, ◌∙◌, subst}
pub use mathlib.Core.Logic.{◌≢◌, ◌↔◌, ◌⊎◌, inl, inr}
pub use mathlib.Core.Bool.{Bool, true, false, not, ◌&&◌, ◌||◌}
pub use mathlib.Core.Option.{Option, none, some}
pub use mathlib.Core.List.{List, [], ◌∷◌, ◌++◌, map, append-nil, append_assoc}
pub use native.Mathlib.Omega.{arith}
