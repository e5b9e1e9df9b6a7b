-- ===== src/Prelude/Table.antt =====
-- A test of every number below a bound, by evaluation.
use Prim.Native.Nat.{ℕ, zero, suc, ◌<◌}
use mathlib.Core.Path.{◌≡◌}
use mathlib.Core.Bool.{Bool, true, ◌&&◌}
use native.Mathlib.Omega.{arith}

unfoldable pub tabulate : (ℕ → Bool) → ℕ → Bool
tabulate test zero = true
tabulate test (suc bound) = tabulate test bound && test bound

-- A table that passes has each of its entries.
pub tabulate-at :
    (test : ℕ → Bool) (bound : ℕ) (i : ℕ) → i < bound → tabulate test bound ≡ true → test i ≡ true
unfolding tabulate
tabulate-at test (suc bound) i below passes = ground (arith, tabulate-at test bound i)
tabulate-at test zero i below passes = absurd (omega arith)
