-- ===== src/Prelude.antt =====
-- The names that the other modules share: the libraries', passed on, and those of the children.
pub mod Tests
pub mod Lists
pub mod Dict
pub mod Int
pub mod Text
pub use Tests.{
  ltb, leb, if◌then◌else◌, Bool-cases, Option-cases, Sum-cases, some_inj, Comparable, ◌==◌,
  nat_comparable, string_comparable, bool_comparable, pair_comparable, ==_refl, ==_sym,
}
pub use Lists.{
  length, keep, count_if, any, drop, length-append, count_if-le, All, All-append, All-keep, In,
  In-append_right, In-append_left, In-append, All-In, All-map, All-map₂, any-eq-false, any-In,
  In-keep, In-keep_intro, keep-append, All-intro, In-map, In-map_intro,
}
pub use Prim.Native.Nat.{ℕ, zero, suc, ◌+◌, ◌-◌, ◌*◌, ◌/◌, ◌%◌, ◌^◌, ◌≤◌, ◌<◌}
pub use Prim.Native.String.{String}
pub use mathlib.Core.Path.{◌≡◌, refl, sym, ap, ◌∙◌}
pub use mathlib.Core.Logic.{◌≢◌, ◌↔◌, ◌⊎◌, inl, inr}
pub use mathlib.Core.Bool.{Bool, true, false, ◌&&◌, ◌||◌, not}
pub use mathlib.Core.Option.{Option, none, some}
pub use mathlib.Core.List.{List, [], ◌∷◌, ◌++◌, map, append_assoc, append-nil}
pub use native.Mathlib.Omega.{arith}
pub use text.Mathlib.TextEquality.{eq_iff}
