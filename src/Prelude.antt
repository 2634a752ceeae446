-- ===== src/Prelude.antt =====
-- Names that the modules of this library share: the libraries', passed on, and those of the
-- children: the Boolean tests, the list functions over native numbers, and counts.
mod Tests
mod Lists
mod Counts
mod Texts
mod Times
pub use Tests.*
pub use Lists.{
  length, In, All, set_if, In-update_where, In-update_where_self, In-append, any_where-false,
  any_where-true, any_where_of_In, any_where-append, find_where-some, find_where-none,
  In-filter_where, In-filter_where_intro, find_where-update_where, find_where-append,
}
pub use Counts.{
  count_where-zero, count_where-le, count_where_suc, count_where_pos, count_where_mono,
  count_where-update_where, update_where_none, unique_row, count_where_less, count_where-append,
  count_where_none,
}
unfoldable pub use Times.{iso_text}
unfoldable pub use Texts.{trim, utf16_length, field_count, encode_uri_component}
unfoldable pub use Lists.{
  find_where, any_where, filter_where, count_where, update_where, delete_where,
}
pub use Prim.Native.Nat.{ℕ, zero, suc, ◌+◌, ◌-◌, ◌*◌, ◌≤◌, ◌<◌, min}
pub use Prim.Native.String.{String, ◌++◌ as text_append}
pub use mathlib.Core.Path.{◌≡◌, refl, sym, ap, ◌∙◌, subst}
pub use mathlib.Core.Logic.{◌≢◌, ◌↔◌, ◌⊎◌, inl, inr}
pub use mathlib.Core.Bool.{Bool, true, false, not, ◌&&◌, ◌||◌}
pub use mathlib.Core.Option.{Option, none, some}
pub use mathlib.Core.List.{List, [], ◌∷◌, ◌++◌, map, Memᴰ}
pub use native.Mathlib.Omega.{arith}
pub use text.Mathlib.Text.{◌==◌}
pub use text.Mathlib.TextEquality.{eq_iff}
pub use text.Mathlib.TextPositions.{eq_refl}
