-- ===== src/Base.antt =====
-- The names that the other modules share: the libraries', passed on, Boolean tests, texts,
-- hash maps and message channels.
mod Tests
mod Lists
mod Texts
mod TextLaws
mod Maps
mod Sort
mod Join
pub mod Digits
pub use Tests.*
pub use Lists.*
unfoldable pub use Texts.{
  text_beq, starts_with, ends_with, find, contains, split_first, split, lowercase, trim_end, trim,
  show_nat, digits_of,
}
pub use Texts.{Text, codes}
pub use TextLaws.*
unfoldable pub use Maps.{get, remove, insert, values, keys, contains_key}
unfoldable pub use Sort.{then_cmp, text_cmp, sort_by}
pub use Sort.{
  reverse_cmp, IsReversible, text_cmp-IsReversible, IsSorted, sort_by-IsSorted, sort_by-perm,
  sort_by-cons, sort_by-All,
}
unfoldable pub use Join.{join}
pub use Join.{IsFreeOf, split-join}
pub use Maps.{HashMap, get-remove, get-insert, get-insert_self, get-remove_self}
pub use Prim.Native.Nat.{ℕ, zero, suc, ◌+◌, ◌-◌, ◌*◌, ◌/◌, ◌%◌, ◌^◌, ◌≤◌, ◌<◌}
pub use Prim.Native.String.{String}
pub use mathlib.Core.Path.{◌≡◌, refl, sym, ap, ◌∙◌}
pub use mathlib.Core.Logic.{◌≢◌, ◌↔◌, ◌⊎◌, inl, inr}
pub use mathlib.Core.Bool.{Bool, true, false, not, ◌&&◌, ◌||◌}
pub use mathlib.Core.Option.{Option, none, some}
pub use mathlib.Core.List.{List, [], ◌∷◌, ◌++◌, map}
pub use native.Mathlib.Omega.{arith}
