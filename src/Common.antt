-- ===== src/Common.antt =====
-- The names that the other modules share: the libraries', passed on, and those of the children.
mod Tests
mod Lists
mod Indices
mod Text
mod Errors
pub mod Assoc
pub mod Int
pub mod Bits
pub mod Sort
pub mod Split
pub use Tests.*
pub use Lists.*
pub use Indices.*
pub use Text.{
  Str, str_ltb_irrefl, str_ltb_trans, str_ltb_total, codes, str_eq_iff, str_eq_self, str_eq_ne,
  has_prefix-append,
}
unfoldable pub use Text.{str_eq, str_ltb, has_prefix}
pub use Errors.*
pub use Prim.Native.Nat.{ℕ, zero, suc, ◌+◌, ◌-◌, ◌*◌, ◌/◌, ◌%◌, ◌^◌, ◌≤◌, ◌<◌}
pub use mathlib.Core.Path.{◌≡◌, refl, sym, ap, ap₂, ◌∙◌, subst}
pub use mathlib.Core.Logic.{◌≢◌, ◌↔◌, ◌⊎◌, inl, inr}
pub use mathlib.Core.Bool.{Bool, true, false, not, ◌&&◌, ◌||◌}
pub use mathlib.Core.Option.{Option, none, some}
pub use mathlib.Core.List.{List, [], ◌∷◌, ◌++◌, append-nil, append_assoc}
pub use native.Mathlib.Omega.{arith}
