-- ===== src/Base.antt =====
-- The names that the other modules share: the libraries', passed on, and those of the children.
mod Tests
mod Equality
mod Lists
mod Assoc
mod Sort
mod Decimal
mod Membership
mod Group
mod Trim
pub mod Int
pub use Tests.*
pub use Equality.*
pub use Lists.*
pub use Assoc.*
pub use Sort.*
pub use Membership.{Elem-append, Elem-insert_sorted, Elem-sort_by, Elem-filter, sorted-append}
pub use Group.*
pub use Trim.{
  is_blank, is_empty, has_text, join, is_blank-trim, is_blank-append, has_text_iff, join_has_text,
}
unfoldable pub use Trim.{trim, is_white}
unfoldable pub use Decimal.{decimal, value}
pub use Decimal.{decimal-injective, value-decimal, append_cancel}
pub use Prim.Native.Nat.{ℕ, zero, suc, ◌+◌, ◌-◌, ◌*◌, ◌/◌, ◌%◌, ◌^◌, ◌≤◌, ◌<◌, min, max}
pub use Prim.Native.String.{String}
pub use mathlib.Core.Path.{◌≡◌, refl, sym, ap, ◌∙◌, ◌≡⟨◌⟩◌, ◌∎}
pub use mathlib.Core.Logic.{◌≢◌, ◌↔◌, ◌⊎◌, inl, inr}
pub use mathlib.Core.Bool.{Bool, true, false, not, ◌&&◌, ◌||◌}
pub use mathlib.Core.Option.{Option, none, some}
pub use mathlib.Core.List.{List, [], ◌∷◌, ◌++◌, map}
pub use native.Mathlib.Omega.{arith}
