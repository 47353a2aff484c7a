-- ===== src/Base.antt =====
-- The names that every component shares: those of the libraries, passed on, and the Boolean tests
-- and list helpers of the two modules below.
mod Tests
mod Lists
pub mod Options
pub use Tests.*
pub use Lists.{
  length, take, drop, length-append, length-take, length-drop, take-append-drop, length-keep, All,
  All-append, All-append_left, All-append_right, All-take, All-map, All-keep,
}
unfoldable pub use Lists.{any, all, keep}
pub use Prim.Native.Nat.{ℕ, zero, suc, ◌+◌, ◌-◌, ◌*◌, ◌/◌, ◌%◌, ◌^◌, ◌≤◌, ◌<◌, min, max}
pub use Prim.Native.String.{String}
pub use mathlib.Core.Path.{◌≡◌, refl, sym, ap, ◌∙◌, subst, fun_ext}
pub use mathlib.Core.Logic.{◌≢◌, ◌↔◌, ◌⊎◌, inl, inr}
pub use mathlib.Core.Bool.{Bool, true, false, not, ◌&&◌, ◌||◌}
pub use mathlib.Core.Option.{Option, none, some}
pub use mathlib.Core.List.{List, [], ◌∷◌, ◌++◌, map, append_assoc, append-nil}
pub use native.Mathlib.Omega.{arith}
pub use text.Mathlib.Text.{◌==◌}
pub use text.Mathlib.TextEquality.{eq_iff}
pub use text.Mathlib.TextPositions.{eq_refl}
