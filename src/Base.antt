-- ===== src/Base.antt =====
-- The names that the other modules share: the libraries', passed on, and those of the children.
pub mod Tests
pub mod Lists
pub mod Int
pub mod Text
pub mod Run
pub mod Tables
pub mod Decimal
pub mod Splices
pub mod Table
pub mod Window
unfoldable pub use Tests.*
unfoldable pub use Lists.*
unfoldable pub use Int.*
unfoldable pub use Text.*
unfoldable pub use Run.*
unfoldable pub use Tables.*
unfoldable pub use Decimal.{is_digit, all_digits, digits_value}
pub use Decimal.{to_string-digits}
pub use Splices.*
unfoldable pub use Window.{keep_last, push_bounded, push_all_bounded}
pub use Window.{
  keep_last-short, length-keep_last-le, length-push_bounded-le, push_bounded-keep_last,
  push_all_bounded-keep_last, push_all_bounded-nil, drop-append, drop_one-drop,
}
unfoldable pub use Table.{find_entry, put_entry, erase_entry, erase_where}
pub use Prim.Native.Nat.{ℕ, zero, suc, ◌+◌, ◌-◌, ◌*◌, ◌/◌, ◌%◌, ◌^◌, ◌≤◌, ◌<◌, min, bit_and}
pub use mathlib.Core.Path.{◌≡◌, refl, sym, ap, ◌∙◌}
pub use mathlib.Core.Logic.{◌≢◌, ◌↔◌, ◌⊎◌, inl, inr}
pub use mathlib.Core.Bool.{Bool, true, false, not, ◌&&◌, ◌||◌}
pub use mathlib.Core.Option.{Option, none, some}
pub use mathlib.Core.List.{List, [], ◌∷◌, ◌++◌, map}
pub use native.Mathlib.Omega.{arith}
