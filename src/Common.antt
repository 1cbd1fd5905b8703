-- ===== src/Common.antt =====
-- The names that all modules share: the libraries', passed on, and those of the children, which
-- hold Boolean tests, list functions, byte strings and the result type of the handlers.
mod Tests
mod Sums
mod Lists
mod Str
pub use Tests.*
pub use Sums.*
pub use Lists.*
unfoldable pub use Tests.{bytes_eq}
unfoldable pub use Lists.{retain, find, any, all}
unfoldable pub use Str.{
  split, lines, split_whitespace, eq_ignore_ascii_case, is_digit, digits_value, strip_prefix,
  trim_start_matches, trim_end_matches, split_run, lines_of, drop_return,
}
pub use Str.*
pub use Prim.Native.Nat.{ℕ, zero, suc, ◌+◌, ◌-◌, ◌*◌, ◌/◌, ◌%◌, ◌^◌, ◌≤◌, ◌<◌}
pub use Prim.Native.String.{String}
pub use mathlib.Core.Path.{◌≡◌, refl, sym, ap, ◌∙◌}
pub use mathlib.Core.Logic.{◌≢◌, ◌↔◌, ◌⊎◌, inl, inr}
pub use mathlib.Core.Bool.{Bool, true, false, false≢true, not, ◌&&◌, ◌||◌, and-eq-true_iff}
pub use mathlib.Core.Option.{Option, none, some}
pub use mathlib.Core.List.{
  List, [], ◌∷◌, ◌++◌, map, reverse, reverse_aux, append-nil, append_assoc, map-append,
}
pub use native.Mathlib.Omega.{arith}
unfoldable pub use native.Mathlib.Decide.{dec_lt}
