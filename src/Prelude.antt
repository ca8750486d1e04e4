-- ===== src/Prelude.antt =====
-- The names that the other modules share: the libraries', passed on, and those of its children.
mod Tests
mod Lists
mod Counts
mod Int
mod Maps
mod Sweep
mod Totals
mod Buffers
mod Text
pub use Tests.*
pub use Lists.*
pub use Counts.*
pub use Totals.*
pub use Buffers.{
  same_count, tally, count_at, tally-bump, bump-IsDict, lookup-bump, count_at-erase, stale_keys,
  pop_all-IsDict, lookup-pop_all, stale_gone, popped-tally, tally-popped, tally-unpopped,
  tally-pop_all,
}
unfoldable pub use Buffers.{bump, pop_all}
pub use Int.{
  ℤ, pos, negsuc, pos_part, neg_part, sub_ℕ, ◌≤ℤ◌, ltb_ℤ, leb_ℤ, max_zero, +ℤ_parts, -ℤ_parts,
  negate_parts, eq_of_parts, int_laws, sub_add, sub_zero, is_zero_eq, sum_ℤ, sum_ℤ-+ℤ,
}
unfoldable pub use Int.{◌+ℤ◌, ◌-ℤ◌, negate, min_ℤ}
pub use Maps.{Dict, lookup-insert, lookup-erase, get_or, is_some}
unfoldable pub use Text.{
  text_length, has_char, before_char, after_char, starts_with, text_le, first_chars, behind_chars,
  text_append,
}
pub use Text.{text_append_nil, text_append_assoc}
pub use Sweep.{keys, contains-keys, contains-filter, holds_at, lookup-erase_keys, lookup-sweep}
unfoldable pub use Sweep.{erase_keys, sweep}
unfoldable pub use Maps.{lookup, insert, erase}
pub use Prim.Native.Nat.{ℕ, zero, suc, ◌+◌, ◌-◌, ◌*◌, ◌/◌, ◌%◌, ◌≤◌, ◌<◌, min, max}
pub use Prim.Native.String.{String}
pub use mathlib.Core.Path.{◌≡◌, refl, sym, ap, ap₂, subst, ◌∙◌, fun_ext, ◌≡⟨◌⟩◌, ◌∎}
pub use mathlib.Core.Logic.{◌≢◌, ◌↔◌, ◌⊎◌, inl, inr}
pub use mathlib.Core.Bool.{Bool, true, false, not, ◌&&◌, ◌||◌}
pub use mathlib.Core.Option.{Option, none, some}
pub use mathlib.Core.List.{List, [], ◌∷◌, ◌++◌, map}
pub use native.Mathlib.Omega.{arith}
