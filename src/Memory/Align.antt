-- ===== src/Memory/Align.antt =====
-- What the functions of Memory compute, in words of powers and multiples.
use native.Mathlib.Nat.{
  div-lt_iff_lt-mul, div-add-mod, mod-lt, pow-suc, one-le-pow, pow-le-pow_right,
}
use kernel_udp_tcp.Prelude.{
  ℕ, zero, suc, ◌+◌, ◌-◌, ◌*◌, ◌/◌, ◌%◌, ◌^◌, ◌≤◌, ◌<◌, ◌≡◌, ◌==◌, ◌↔◌, refl, ap, ◌∙◌, Bool, true,
  false, bit_and, arith,
}
use kernel_udp_tcp.Memory.{is_valid_alignment, one_less, is_aligned, negated, align}
use kernel_udp_tcp.Memory.Alignment.{low_mask, high_mask, power_of, bit_and_same, bit_and-zero}

is_valid_alignment_iff :
    (alignment : ℕ) → (is_valid_alignment alignment ≡ true) ↔ ((k : ℕ) × (alignment ≡ 2 ^ k))
unfolding is_valid_alignment
is_valid_alignment_iff n = (
  λ e. power_of n n (omega arith) (ground arith) (ground arith),
  λ p. ground (arith, p.1, one-le-pow p.0 2, cleared p.0 p.1),
)
  where
    cleared : (k : ℕ) → n ≡ 2 ^ k → bit_and n (n - 1) ≡ 0
    cleared k e =
        bit_and_same (omega (arith, e)) (omega (arith, e))
        ∙ low_mask k 1 0 (2 ^ k) (omega arith) (omega (arith, one-le-pow k 2))

one_le : (k : ℕ) → 1 ≤ 2 ^ k
one_le k = one-le-pow k 2 (omega arith)

pow_sum : (m k n : ℕ) → n ≡ m + k → 2 ^ n ≡ 2 ^ m * 2 ^ k
pow_sum m zero n e = let same : n ≡ m = omega arith in omega (arith, ap (λ j. 2 ^ j) same)
pow_sum m (suc k) zero e = absurd (omega arith)
pow_sum m (suc k) (suc n) e =
    pow-suc 2 n
    ∙ omega (arith, pow_sum m k n (omega arith), ap (λ (p : ℕ). 2 ^ m * p) (pow-suc 2 k))

less_once : (x p : ℕ) → 1 ≤ x → (x - 1) * p ≡ x * p - p
less_once zero p some = absurd (omega arith)
less_once (suc x) p some =
    let e : suc x - 1 ≡ x = omega arith in omega (arith, ap (λ (y : ℕ). y * p) e)

-- 2 ^ k as an alignment: the mask of IsAligned, and the mask of Align.
one_less_pow : (k : ℕ) → k ≤ 63 → one_less (2 ^ k) ≡ 2 ^ k - 1
one_less_pow k below = omega (arith, one_le k, pow-le-pow_right {n = 2} (omega arith) below)

negated_pow : (k : ℕ) → k ≤ 30 → negated (2 ^ k) ≡ (2 ^ (64 - k) - 1) * 2 ^ k
unfolding negated
negated_pow k below = ground (arith, one_le k, pow-le-pow_right {n = 2} (omega arith) below, high)
  where
    high : (2 ^ (64 - k) - 1) * 2 ^ k ≡ 2 ^ 64 - 2 ^ k
    high = omega (
      arith,
      less_once (2 ^ (64 - k)) (2 ^ k) (one_le (64 - k)),
      pow_sum (64 - k) k 64 (omega arith),
    )

-- The mask of Align rounds down to a multiple.
rounds_down : (k a : ℕ) → k ≤ 30 → a < 2 ^ 64 → bit_and a (negated (2 ^ k)) ≡ a / 2 ^ k * 2 ^ k
rounds_down k a below fits =
    bit_and_same (omega (arith, div-add-mod a (2 ^ k))) (negated_pow k below)
    ∙ high_mask k (64 - k) (a / 2 ^ k) (a % 2 ^ k) (a / 2 ^ k * 2 ^ k) refl (mod-lt a (one_le k))
        ((div-lt_iff_lt-mul (one_le k)).1 (omega (arith, pow_sum (64 - k) k 64 (omega arith))))

-- IsValidAlignment accepts the powers of two, and nothing else. For an alignment of 2 ^ k, at most
-- 2 ^ 30, IsAligned says whether the address is a multiple of it, and Align goes down or up to the
-- nearest multiple. The address is of 64 bits, and what is next to it, too.
pub align_lem :
    (n k address : ℕ)
    → k ≤ 30
    → address + (2 ^ k - 1) < 2 ^ 64
    → ((is_valid_alignment n ≡ true) ↔ ((j : ℕ) × (n ≡ 2 ^ j)))
      × (is_aligned address (2 ^ k) ≡ (address % 2 ^ k == 0))
      × (align address (2 ^ k) false ≡ address / 2 ^ k * 2 ^ k)
      × (align address (2 ^ k) true ≡ (address + (2 ^ k - 1)) / 2 ^ k * 2 ^ k)
unfolding is_aligned align
align_lem n k address below fits = (
  is_valid_alignment_iff n,
  ap (λ m. m == 0) low,
  rounds_down k address below (omega arith),
  ap (λ a. bit_and a (negated (2 ^ k))) next ∙ rounds_down k (address + (2 ^ k - 1)) below fits,
)
  where
    low : bit_and address (one_less (2 ^ k)) ≡ address % 2 ^ k
    low =
        bit_and_same (omega (arith, div-add-mod address (2 ^ k))) (one_less_pow k (omega arith))
        ∙ low_mask k (address / 2 ^ k) (address % 2 ^ k) (address / 2 ^ k * 2 ^ k) refl
            (mod-lt address (one_le k))

    next : (address + one_less (2 ^ k)) % 2 ^ 64 ≡ address + (2 ^ k - 1)
    next = omega (arith, one_less_pow k (omega arith), fits)

-- An alignment of 2 ^ k with k from 32 to 63 aligns every address to 0: the conversion to int drops
-- it.
pub align_zero :
    (k address : ℕ) (upwards : Bool) → 32 ≤ k → k ≤ 63 → align address (2 ^ k) upwards ≡ 0
unfolding align negated
align_zero k address upwards large below = go upwards
  where
    dropped : negated (2 ^ k) ≡ 0
    dropped = ground (arith, pow_sum (k - 32) 32 k (omega arith))

    go : (b : Bool) → align address (2 ^ k) b ≡ 0
    go true = bit_and_same refl dropped ∙ bit_and-zero _
    go false = bit_and_same refl dropped ∙ bit_and-zero _
