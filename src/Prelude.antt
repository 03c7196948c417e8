-- ===== src/Prelude.antt =====
-- The names that every module shares: the libraries' names passed on, tests on native numbers,
-- lists measured by native numbers, and the outcome of Go code that may panic.
mod Tests
mod Lists
mod Outcomes
mod Slices
mod Strings
pub mod SliceLaws
pub use Tests.*
pub use Lists.*
pub use Outcomes.*
pub use Strings.{name_eq_sound, name_eq_refl, name_eq_iff}
unfoldable pub use Strings.{name_eq}
unfoldable pub use Slices.{index, store, make_bytes, overlay, splice, write_at}
pub use Prim.Native.Nat.{ℕ, zero, suc, ◌+◌, ◌-◌, ◌*◌, ◌/◌, ◌%◌, ◌^◌, ◌≤◌, ◌<◌, min}
pub use mathlib.Core.Path.{◌≡◌, refl, sym, ap, ◌∙◌, subst}
pub use mathlib.Core.Logic.{◌≢◌, ◌↔◌, ◌⊎◌, inl, inr}
pub use mathlib.Core.Bool.{Bool, true, false, ◌&&◌, ◌||◌, not}
pub use mathlib.Core.Option.{Option, none, some}
pub use mathlib.Core.List.{List, [], ◌∷◌, ◌++◌, map}
pub use native.Mathlib.Omega.{arith}
