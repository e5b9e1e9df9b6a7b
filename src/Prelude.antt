-- ===== src/Prelude.antt =====
-- The names that the other modules share: the libraries', passed on, and those of the children.
mod Tests
mod Texts
mod Bits
mod Lists
mod Table
pub use Tests.*
pub use Texts.*
pub use Bits.{
  and_step, bit-zero, bit, bit-bit_and, bit-bit_or, bit-bit_xor, bit-complement, bit-inj, bit_above,
  bit_or_fits, bit_xor_fits, bit_and_fits,
}
pub use Lists.*
unfoldable pub use Table.{tabulate}
pub use Table.{tabulate-at}
pub use Prim.Native.Nat.{
  ℕ, zero, suc, ◌+◌, ◌-◌, ◌*◌, ◌/◌, ◌%◌, ◌^◌, ◌≤◌, ◌<◌, max, min, bit_and, bit_or, bit_xor,
}
pub use mathlib.Core.Path.{◌≡◌, refl, sym, ap, subst, ◌∙◌}
pub use mathlib.Core.Logic.{◌≢◌, ◌↔◌, ◌⊎◌, inl, inr}
pub use mathlib.Core.Bool.{Bool, true, false, not, ◌&&◌, ◌||◌}
pub use mathlib.Core.Option.{Option, none, some}
pub use mathlib.Core.List.{List, [], ◌∷◌, ◌++◌}
pub use native.Mathlib.Omega.{arith}
