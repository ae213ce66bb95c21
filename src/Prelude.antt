-- ===== src/Prelude.antt =====
-- The names that the other modules share: the libraries', passed on, and those of the children.
pub mod Tests
pub mod Words
pub mod Lists
pub mod Ring
pub mod Texts
pub use Tests.{
  ltb, leb, ◌==◌, if◌then◌else◌, is_none, ltb→lt, lt→ltb, leb→le, le→leb, lt→leb_false, Bool-cases,
}
pub use Texts.{codes}
pub use Words.{u8, u16, u32, u64, sub32, uint32_max, uint64_max, has}
pub use Lists.{length, get_elem?, get_or, set, take, drop, replicate, sum, All, Any}
pub use Prim.Native.Nat.{ℕ, zero, suc, ◌+◌, ◌-◌, ◌*◌, ◌/◌, ◌%◌, ◌^◌, ◌≤◌, ◌<◌, bit_and, bit_or}
pub use mathlib.Core.Path.{◌≡◌, refl, sym, ap, subst, ◌∙◌}
pub use mathlib.Core.Logic.{◌≢◌, ◌↔◌, ◌⊎◌, inl, inr}
pub use mathlib.Core.Bool.{Bool, true, false, not, ◌&&◌, ◌||◌}
pub use mathlib.Core.Option.{Option, none, some}
pub use mathlib.Core.List.{List, [], ◌∷◌, ◌++◌, map}
pub use native.Mathlib.Omega.{arith}
