-- ===== src/Prelude.antt =====
-- The names that the other modules share: the libraries', passed on, and those of the children.
-- The children model no code of the repository but the parts of Rust's standard library that it
-- uses: tests, slices, byte strings, `Option` and signed integers.
mod Tests
mod Lists
mod Bytes
pub mod Int
pub use Tests.*
pub use Lists.*
pub use Bytes.{
  Text, checked_sub, then_some, position, trim_start, trim_end, trim_matches, strip_suffix,
  is_ascii_digit, is_ascii_whitespace, contains_text, starts_with,
}
unfoldable pub use Bytes.{ascii, text_eq, split}
pub use Bytes.{text_eq_iff, text_eq_refl, text_eq-cases}
pub use Prim.Native.Nat.{ℕ, zero, suc, ◌+◌, ◌-◌, ◌*◌, ◌/◌, ◌%◌, ◌^◌, ◌≤◌, ◌<◌}
pub use mathlib.Core.Path.{◌≡◌, refl, sym, ap, ap₂, ◌∙◌, subst}
pub use mathlib.Core.Logic.{◌≢◌, ◌↔◌, ◌⊎◌, inl, inr}
pub use mathlib.Core.Bool.{Bool, true, false, ◌&&◌, ◌||◌, not}
pub use mathlib.Core.Option.{Option, none, some}
pub use mathlib.Core.List.{List, [], ◌∷◌, ◌++◌, map, append_assoc, append-nil}
pub use native.Mathlib.Omega.{arith}
