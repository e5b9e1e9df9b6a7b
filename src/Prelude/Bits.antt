-- ===== src/Prelude/Bits.antt =====
-- `&`, `|` and `^` on the native numbers, one binary digit at a time.
use Prim.Native.Nat.{
  ℕ, zero, suc, ◌+◌, ◌-◌, ◌*◌, ◌/◌, ◌%◌, ◌^◌, ◌≤◌, ◌<◌, min, max, differ, digits, bitwise, bit_and,
  bit_or, bit_xor, bit_and-bitwise, bit_or-bitwise, bit_xor-bitwise,
}
use mathlib.Core.Path.{◌≡◌, refl, ap, sym, ◌∙◌}
use mathlib.Core.Bool.{Bool, false, not, ◌&&◌, ◌||◌}
use native.Mathlib.Omega.{arith}
use native.Mathlib.Nat.{pow-suc, one-le-pow}
use kernel_udp_tcp.Prelude.Tests.{◌==◌, if◌then◌else◌}

-- Binary digit i.
abbrev pub bit : ℕ → ℕ → Bool
bit zero a = a % 2 == 1
bit (suc i) a = bit i (a / 2)

pub bit-zero : (i : ℕ) → bit i 0 ≡ false
bit-zero zero = refl
bit-zero (suc i) = bit-zero i

module _ (alone : ℕ → ℕ) (both : ℕ → ℕ → ℕ) where
  -- One unit of fuel beyond what the first number needs is not used.
  digits_spare : (n a b : ℕ) → a ≤ n → digits alone both (suc n) a b ≡ digits alone both n a b
  digits_spare zero zero b enough = refl
  digits_spare (suc n) zero b enough = refl
  digits_spare (suc n) (suc a) b enough =
      ap (λ t. t * 2 + both (suc a % 2) (b % 2)) (digits_spare n (suc a / 2) (b / 2) (omega arith))
  digits_spare zero (suc a) b enough = absurd (omega arith)

  digits_enough : (k n a b : ℕ) → n ≡ a + k → digits alone both n a b ≡ bitwise alone both a b
  digits_enough zero n a b e = ap (λ m. digits alone both m a b) (omega (arith, e))
  digits_enough (suc k) zero a b e = absurd (omega (arith, e))
  digits_enough (suc k) (suc n) a b e =
      digits_spare n a b (omega (arith, e)) ∙ digits_enough k n a b (omega (arith, e))

  -- The lowest digit apart.
  bitwise-suc :
      (a b : ℕ)
      → bitwise alone both (suc a) b
        ≡ bitwise alone both (suc a / 2) (b / 2) * 2 + both (suc a % 2) (b % 2)
  bitwise-suc a b =
      ap (λ t. t * 2 + both (suc a % 2) (b % 2))
        (digits_enough (a - suc a / 2) a (suc a / 2) (b / 2) (omega arith))

pub and_step : (a b : ℕ) → bit_and a b ≡ bit_and (a / 2) (b / 2) * 2 + min (a % 2) (b % 2)
and_step zero b = rw (bit_and-bitwise 0 b) (rw (bit_and-bitwise 0 (b / 2)) (omega arith))
and_step (suc a) b =
    bit_and-bitwise (suc a) b
    ∙ bitwise-suc (λ y. 0) min a b
    ∙ ap (λ t. t * 2 + min (suc a % 2) (b % 2)) (sym (bit_and-bitwise (suc a / 2) (b / 2)))

or_step : (a b : ℕ) → bit_or a b ≡ bit_or (a / 2) (b / 2) * 2 + max (a % 2) (b % 2)
or_step zero b = rw (bit_or-bitwise 0 b) (rw (bit_or-bitwise 0 (b / 2)) (omega arith))
or_step (suc a) b =
    bit_or-bitwise (suc a) b
    ∙ bitwise-suc (λ y. y) max a b
    ∙ ap (λ t. t * 2 + max (suc a % 2) (b % 2)) (sym (bit_or-bitwise (suc a / 2) (b / 2)))

xor_step : (a b : ℕ) → bit_xor a b ≡ bit_xor (a / 2) (b / 2) * 2 + differ (a % 2) (b % 2)
xor_step zero b = rw (bit_xor-bitwise 0 b) (rw (bit_xor-bitwise 0 (b / 2)) (omega arith))
xor_step (suc a) b =
    bit_xor-bitwise (suc a) b
    ∙ bitwise-suc (λ y. y) differ a b
    ∙ ap (λ t. t * 2 + differ (suc a % 2) (b % 2)) (sym (bit_xor-bitwise (suc a / 2) (b / 2)))

differ_lem : (x y : ℕ) → x < 2 → y < 2 → differ x y ≡ (x + y) % 2
differ_lem zero y p q = omega (arith, q)
differ_lem (suc zero) zero p q = refl
differ_lem (suc zero) (suc zero) p q = refl
differ_lem (suc zero) (suc (suc y)) p q = absurd (omega (arith, q))
differ_lem (suc (suc x)) y p q = absurd (omega (arith, p))

xor_sum : (a b : ℕ) → bit_xor a b ≡ bit_xor (a / 2) (b / 2) * 2 + (a % 2 + b % 2) % 2
xor_sum a b =
    xor_step a b
    ∙ ap (λ d. bit_xor (a / 2) (b / 2) * 2 + d)
        (differ_lem (a % 2) (b % 2) (omega arith) (omega arith))

pub bit-bit_and : (i a b : ℕ) → bit i (bit_and a b) ≡ (bit i a && bit i b)
bit-bit_and zero a b = ground (arith, and_step a b)
bit-bit_and (suc i) a b = ap (bit i) (omega (arith, and_step a b)) ∙ bit-bit_and i (a / 2) (b / 2)

pub bit-bit_or : (i a b : ℕ) → bit i (bit_or a b) ≡ (bit i a || bit i b)
bit-bit_or zero a b = ground (arith, or_step a b)
bit-bit_or (suc i) a b = ap (bit i) (omega (arith, or_step a b)) ∙ bit-bit_or i (a / 2) (b / 2)

pub bit-bit_xor : (i a b : ℕ) → bit i (bit_xor a b) ≡ (if bit i a then not (bit i b) else bit i b)
bit-bit_xor zero a b = ground (arith, xor_sum a b)
bit-bit_xor (suc i) a b = ap (bit i) (omega (arith, xor_sum a b)) ∙ bit-bit_xor i (a / 2) (b / 2)

-- The complement in w digits.
pub bit-complement : (i w a : ℕ) → i < w → a < 2 ^ w → bit i (2 ^ w - 1 - a) ≡ not (bit i a)
bit-complement zero (suc w) a below fits = ground (arith, pow-suc 2 w, one-le-pow w 2)
bit-complement (suc i) (suc w) a below fits =
    ap (bit i) (omega (arith, pow-suc 2 w, one-le-pow w 2))
    ∙ bit-complement i w (a / 2) (omega arith) (omega (arith, pow-suc 2 w))
bit-complement i zero a below fits = absurd (omega arith)

-- Numbers with the same digits are equal.
bit-inj_fuel : (n a b : ℕ) → a ≤ n → b ≤ n → ((i : ℕ) → bit i a ≡ bit i b) → a ≡ b
bit-inj_fuel zero a b p q same = omega arith
bit-inj_fuel (suc n) a b p q same =
    let halves = bit-inj_fuel n (a / 2) (b / 2) (omega arith) (omega arith) (λ i. same (suc i)) in
    ground (arith, same 0)

pub bit-inj : (a b : ℕ) → ((i : ℕ) → bit i a ≡ bit i b) → a ≡ b
bit-inj a b same = bit-inj_fuel (max a b) a b (omega arith) (omega arith) same

pub bit_above : (i w a : ℕ) → w ≤ i → a < 2 ^ w → bit i a ≡ false
bit_above zero zero a above fits = ground arith
bit_above (suc i) zero a above fits = bit_above i zero (a / 2) (omega arith) (omega arith)
bit_above (suc i) (suc w) a above fits =
    bit_above i w (a / 2) (omega arith) (omega (arith, pow-suc 2 w))
bit_above zero (suc w) a above fits = absurd (omega arith)

fits_zero : (f : ℕ → ℕ → ℕ) (a b : ℕ) → a < 1 → b < 1 → f 0 0 ≡ 0 → f a b < 1
fits_zero f a b p q e =
    let both : f a b ≡ 0 = ap (λ x. f x b) (omega (arith, p)) ∙ ap (f 0) (omega (arith, q)) ∙ e in
    omega (arith, both)

-- Numbers below 2 ^ w stay there.
pub bit_and_fits : (w a b : ℕ) → a < 2 ^ w → b < 2 ^ w → bit_and a b < 2 ^ w
bit_and_fits zero a b p q = fits_zero bit_and a b p q refl
bit_and_fits (suc w) a b p q =
    let rest =
      bit_and_fits w (a / 2) (b / 2) (omega (arith, pow-suc 2 w)) (omega (arith, pow-suc 2 w)) in
    omega (arith, and_step a b, rest, pow-suc 2 w)

pub bit_or_fits : (w a b : ℕ) → a < 2 ^ w → b < 2 ^ w → bit_or a b < 2 ^ w
bit_or_fits zero a b p q = fits_zero bit_or a b p q refl
bit_or_fits (suc w) a b p q =
    let rest =
      bit_or_fits w (a / 2) (b / 2) (omega (arith, pow-suc 2 w)) (omega (arith, pow-suc 2 w)) in
    omega (arith, or_step a b, rest, pow-suc 2 w)

pub bit_xor_fits : (w a b : ℕ) → a < 2 ^ w → b < 2 ^ w → bit_xor a b < 2 ^ w
bit_xor_fits zero a b p q = fits_zero bit_xor a b p q refl
bit_xor_fits (suc w) a b p q =
    let rest =
      bit_xor_fits w (a / 2) (b / 2) (omega (arith, pow-suc 2 w)) (omega (arith, pow-suc 2 w)) in
    omega (arith, xor_sum a b, rest, pow-suc 2 w)
