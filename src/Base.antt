-- ===== src/Base.antt =====
-- Names that every module shares: the libraries', passed on, the Boolean tests, lists over the
-- native numbers and the arithmetic of `uint32_t`.
mod Tests
mod Lists
mod Slices
mod Words
mod Bits
mod Int
mod Texts
mod Decimal
mod Tables
pub use Tests.*
pub use Lists.*
pub use Slices.*
pub use Words.*
pub use Bits.*
pub use Int.*
unfoldable pub use Texts.*
unfoldable pub use Decimal.*
unfoldable pub use Tables.*
pub use Prim.Native.Nat.{ℕ, zero, suc, ◌+◌, ◌-◌, ◌*◌, ◌/◌, ◌%◌, ◌^◌, ◌≤◌, ◌<◌, min}
pub use mathlib.Core.Path.{◌≡◌, refl, sym, ap, ap₂, subst, ◌∙◌}
pub use mathlib.Core.Logic.{◌≢◌, ◌↔◌, ◌⊎◌, inl, inr}
pub use mathlib.Core.Bool.{Bool, true, false, not, ◌&&◌, ◌||◌}
pub use mathlib.Core.Option.{Option, none, some}
pub use mathlib.Core.List.{List, [], ◌∷◌, ◌++◌, map, append-nil, append_assoc}
pub use native.Mathlib.Omega.{arith}
