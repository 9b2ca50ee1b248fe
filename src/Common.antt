-- ===== src/Common.antt =====
-- The names that the other modules share: the libraries', passed on, and those of the children.
mod Tests
mod Lists
mod Fallible
pub mod Int
pub mod Decimal
mod Strings
mod StringLaws
pub use Tests.*
pub use Lists.*
pub use Fallible.*
pub use StringLaws.*
pub use Strings.{text_eq_iff, text_eq_refl, text-cases}
unfoldable pub use Strings.{
  Text, text, len_utf8, byte_len, text_eq, has_char, starts_with_char, ends_with_char, strip_prefix,
  starts_with, ends_with, contains_text, split_once, is_whitespace, is_control, trim_start,
  trim_end, trim, is_ascii_lowercase, is_ascii_digit, is_ascii_alphabetic, is_ascii_alphanumeric,
  to_ascii_lowercase, eq_ignore_ascii_case, words_from, split_whitespace,
}
pub use Prim.Native.Nat.{ℕ, zero, suc, ◌+◌, ◌-◌, ◌*◌, ◌/◌, ◌%◌, ◌^◌, ◌≤◌, ◌<◌, min}
pub use mathlib.Core.Path.{◌≡◌, refl, sym, ap, ◌∙◌}
pub use mathlib.Core.Logic.{◌≢◌, ◌↔◌, ◌⊎◌, inl, inr}
pub use mathlib.Core.Bool.{Bool, true, false, not, ◌&&◌, ◌||◌}
pub use mathlib.Core.Option.{Option, none, some}
pub use mathlib.Core.List.{List, [], ◌∷◌, ◌++◌, map}
pub use native.Mathlib.Omega.{arith}
