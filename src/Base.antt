-- ===== src/Base.antt =====
-- The names that the other modules share: the libraries', passed on, and those of the children.
mod Tests
mod Lists
mod Octets
mod Search
pub use Tests.*
pub use Lists.*
unfoldable pub use Lists.{pick}
unfoldable pub use Octets.{text_lt, text_eq}
pub use Octets.{Text, codes, text_lt_irrefl, text_eq_refl, text_eq_eq, text_lt_eq}
unfoldable pub use Search.{
  starts_with, next_index, find_text, later_or, rfind_text, replace_from, regex_replace,
}
pub use Search.{npos, position, literal, either_literal}
pub use Prim.Native.Nat.{ℕ, zero, suc, ◌+◌, ◌-◌, ◌*◌, ◌/◌, ◌%◌, ◌^◌, ◌≤◌, ◌<◌}
pub use mathlib.Core.Path.{◌≡◌, refl, sym, ap, ◌∙◌, subst}
pub use mathlib.Core.Logic.{◌≢◌, ◌↔◌, ◌⊎◌, inl, inr}
pub use mathlib.Core.Bool.{Bool, true, false, not, ◌&&◌, ◌||◌}
pub use mathlib.Core.Option.{Option, none, some}
pub use mathlib.Core.List.{List, [], ◌∷◌, ◌++◌, map}
pub use native.Mathlib.Omega.{arith}
