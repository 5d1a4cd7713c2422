-- ===== src/Base.antt =====
-- Names that every module shares: the libraries', passed on, the tests and conditionals, lists
-- over the native numbers, machine words and texts.
mod Tests
mod Lists
mod Words
mod Texts
mod Checked
pub use Tests.*
pub use Lists.*
pub use Words.*
unfoldable pub use Texts.{text_eq}
pub use Texts.*
unfoldable pub use Checked.*
pub use Prim.Native.Nat.{
  ℕ, zero, suc, ◌+◌, ◌-◌, ◌*◌, ◌/◌, ◌%◌, ◌^◌, ◌≤◌, ◌<◌, min, max, bit_and, bit_or,
}
pub use mathlib.Core.Path.{◌≡◌, refl, sym, ap, ◌∙◌, subst}
pub use mathlib.Core.Logic.{◌≢◌, ◌↔◌, ◌⊎◌, inl, inr}
pub use mathlib.Core.Bool.{Bool, true, false, ◌&&◌, ◌||◌, not}
pub use mathlib.Core.Option.{Option, none, some}
pub use mathlib.Core.List.{List, [], ◌∷◌, ◌++◌, map, append-nil, append_assoc}
pub use native.Mathlib.Omega.{arith}
