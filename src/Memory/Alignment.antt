-- ===== src/Memory/Alignment.antt =====
-- Alignment by powers of two.
use native.Mathlib.Nat.{pow-suc, one-le-pow}
use kernel_udp_tcp.Prelude.{
  ℕ, zero, suc, ◌+◌, ◌-◌, ◌*◌, ◌/◌, ◌%◌, ◌^◌, ◌≤◌, ◌<◌, ◌≡◌, ◌==◌, refl, ap, sym, ◌∙◌, Bool, true,
  false, ◌&&◌, bit_and, arith, and_step, bit, bit-inj, bit-zero, bit-bit_and, Bool-cases, inl, inr,
}

pub bit_and-zero : (a : ℕ) → bit_and a 0 ≡ 0
bit_and-zero a = bit-inj _ _ (λ i. bit-bit_and i a 0 ∙ none_set i ∙ sym (bit-zero i))
  where
    none_set : (i : ℕ) → (bit i a && bit i 0) ≡ false
    none_set i = ground (arith, bit-zero i)

bit_and_self : (a : ℕ) → bit_and a a ≡ a
bit_and_self a = bit-inj _ _ (λ i. bit-bit_and i a a ∙ go (bit i a))
  where
    go : (b : Bool) → (b && b) ≡ b
    go true = refl
    go false = refl

pub bit_and_same : {a b c d : ℕ} → a ≡ c → b ≡ d → bit_and a b ≡ bit_and c d
bit_and_same {a = a} {d = d} p q = ap (bit_and a) q ∙ ap (λ x. bit_and x d) p

-- The last k digits, all ones, of a number that is t above a multiple of 2 ^ k.
pub low_mask : (k q r t : ℕ) → t ≡ q * 2 ^ k → r < 2 ^ k → bit_and (t + r) (2 ^ k - 1) ≡ r
low_mask zero q r t e below = omega (arith, bit_and-zero (t + r), below)
low_mask (suc k) q r t e below = omega (
  arith,
  and_step (t + r) (2 ^ suc k - 1),
  pow-suc 2 k,
  one-le-pow k 2,
  doubled,
  halves,
  low_mask k q (r / 2) (q * 2 ^ k) refl (omega (arith, pow-suc 2 k)),
)
  where
    doubled : t ≡ 2 * (q * 2 ^ k)
    doubled = omega (arith, e, ap (λ (p : ℕ). q * p) (pow-suc 2 k))

    halves : bit_and ((t + r) / 2) ((2 ^ suc k - 1) / 2) ≡ bit_and (q * 2 ^ k + r / 2) (2 ^ k - 1)
    halves = bit_and_same (omega (arith, doubled)) (omega (arith, pow-suc 2 k, one-le-pow k 2))

-- The digits from k on, w of them, of such a number.
pub high_mask :
    (k w q r t : ℕ)
    → t ≡ q * 2 ^ k
    → r < 2 ^ k
    → q < 2 ^ w
    → bit_and (t + r) ((2 ^ w - 1) * 2 ^ k) ≡ t
high_mask zero w q r t e below fits =
    bit_and_same (omega (arith, e, below)) (omega arith)
    ∙ low_mask w 0 q 0 (omega arith) fits
    ∙ omega (arith, e)
high_mask (suc k) w q r t e below fits = omega (
  arith,
  and_step (t + r) ((2 ^ w - 1) * 2 ^ suc k),
  even,
  doubled,
  halves,
  high_mask k w q (r / 2) (q * 2 ^ k) refl (omega (arith, pow-suc 2 k)) fits,
)
  where
    even : (2 ^ w - 1) * 2 ^ suc k ≡ 2 * ((2 ^ w - 1) * 2 ^ k)
    even = omega (arith, ap (λ (p : ℕ). (2 ^ w - 1) * p) (pow-suc 2 k))

    doubled : t ≡ 2 * (q * 2 ^ k)
    doubled = omega (arith, e, ap (λ (p : ℕ). q * p) (pow-suc 2 k))

    halves :
        bit_and ((t + r) / 2) ((2 ^ w - 1) * 2 ^ suc k / 2)
        ≡ bit_and (q * 2 ^ k + r / 2) ((2 ^ w - 1) * 2 ^ k)
    halves = bit_and_same (omega (arith, doubled)) (omega (arith, even))

-- bit_and n (n - 1) of an even and of an odd number.
valid_even : (m : ℕ) → 0 < m → bit_and (m * 2) (m * 2 - 1) ≡ bit_and m (m - 1) * 2
valid_even m some = omega (arith, and_step (m * 2) (m * 2 - 1), halves)
  where
    halves : bit_and (m * 2 / 2) ((m * 2 - 1) / 2) ≡ bit_and m (m - 1)
    halves = ap (λ x. bit_and x ((m * 2 - 1) / 2)) (omega arith) ∙ ap (bit_and m) (omega arith)

valid_odd : (m : ℕ) → bit_and (m * 2 + 1) (m * 2 + 1 - 1) ≡ m * 2
valid_odd m = omega (arith, and_step (m * 2 + 1) (m * 2 + 1 - 1), halves, bit_and_self m)
  where
    halves : bit_and ((m * 2 + 1) / 2) ((m * 2 + 1 - 1) / 2) ≡ bit_and m m
    halves = ap (λ x. bit_and x ((m * 2 + 1 - 1) / 2)) (omega arith) ∙ ap (bit_and m) (omega arith)

pub power_of : (fuel n : ℕ) → n ≤ fuel → 0 < n → bit_and n (n - 1) ≡ 0 → (k : ℕ) × (n ≡ 2 ^ k)
power_of zero n enough some e = absurd (omega arith)
power_of (suc fuel) n enough some e = elim (Bool-cases (n % 2 == 0)) [
  | inl even ↦
      let half : n ≡ n / 2 * 2 = ground arith in
      let same = sym (ap (λ m. bit_and m (m - 1)) half) ∙ e in
      let (k, p) =
        power_of fuel (n / 2) (omega arith) (omega arith)
          (omega (arith, valid_even (n / 2) (omega arith), same)) in
      (suc k, omega (arith, p, pow-suc 2 k))
  | inr odd ↦
      let whole : n ≡ n / 2 * 2 + 1 = ground arith in
      let same = sym (ap (λ m. bit_and m (m - 1)) whole) ∙ e in
      (0, omega (arith, valid_odd (n / 2), same))
]
