-- ===== src/Prelude.antt =====
-- The names that the other modules share: those of the libraries, passed on, and of the children.
mod Tests
mod Lists
mod Texts
mod Dict
mod Sorting
pub mod Int
pub mod Trim
pub use Tests.*
pub use Lists.*
unfoldable pub use Texts.{
  is_space, is_empty, trim_left, trim_right, trim, lower_code, lower_is, fold_is, upper_is,
  split_commas, starts_by, contains_by, join, decimal,
}
pub use Texts.{str_cases, eq_self}
unfoldable pub use Dict.{lookup, insert}
unfoldable pub use Sorting.{place, sort_by}
pub use Sorting.{sort_by-perm}
pub use Dict.{update, some_inj, lookup-insert}
pub use Prim.Native.Nat.{ℕ, zero, suc, ◌+◌, ◌-◌, ◌*◌, ◌≤◌, ◌<◌, min}
pub use Prim.Native.String.{String}
pub use mathlib.Core.Path.{◌≡◌, refl, sym, ap, subst, ◌∙◌}
pub use mathlib.Core.Logic.{◌≢◌, ◌↔◌, ◌⊎◌, inl, inr}
pub use mathlib.Core.Bool.{Bool, true, false, not, ◌&&◌, ◌||◌}
pub use mathlib.Core.Option.{Option, none, some}
pub use mathlib.Core.List.{List, [], ◌∷◌, ◌++◌, map}
pub use native.Mathlib.Omega.{arith}
pub use text.Mathlib.Text.{◌==◌}
pub use text.Mathlib.TextEquality.{eq_iff}
