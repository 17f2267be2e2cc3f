-- ===== src/Common.antt =====
-- The names that the other modules share: the libraries', passed on, and those of the children.
mod Tests
mod Lists
mod Words
mod Texts
mod ByteLaws
mod Bits
pub use Tests.*
pub use Lists.*
pub use Words.*
pub use ByteLaws.{Bytes, below_holds, bit_or_fields, bit_and_low, bit_or_masked, gives, gives→eq}
unfoldable pub use ByteLaws.{holds_below}
pub use Bits.{bit_or_above, bit_or_below, bit_or_bit, bit_and_bit, bit_and_mask, one-le-pow}
pub use Texts.{Text, codes, text_eq→eq, text_eq_refl}
unfoldable pub use Texts.{text_eq}
pub use Prim.Native.Nat.{ℕ, zero, suc, ◌+◌, ◌-◌, ◌*◌, ◌/◌, ◌%◌, ◌^◌, ◌≤◌, ◌<◌}
pub use mathlib.Core.Path.{◌≡◌, refl, sym, ap, ap₂, ◌∙◌, subst}
pub use mathlib.Core.Logic.{◌≢◌, ◌↔◌, ◌⊎◌, inl, inr}
pub use mathlib.Core.Bool.{Bool, true, false, ◌&&◌, ◌||◌, not}
pub use mathlib.Core.Option.{Option, none, some}
pub use mathlib.Core.List.{List, [], ◌∷◌, ◌++◌, map}
pub use native.Mathlib.Omega.{arith}
