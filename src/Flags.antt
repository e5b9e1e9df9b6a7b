-- ===== src/Flags.antt =====
-- Flags (include/server/flags.h) of an enumeration whose underlying type has w bits.
use kernel_udp_tcp.Prelude.{
  ℕ, ◌-◌, ◌<◌, ◌^◌, ◌≡◌, ◌==◌, ◌↔◌, ap, sym, ◌∙◌, Bool, true, false, not, ◌&&◌, ◌||◌, arith,
  if◌then◌else◌, bit_and, bit_or, bit_xor, bit, bit-bit_and, bit-bit_or, bit-bit_xor,
  bit-complement, bit-inj, bit_above, bit-zero, bit_and_fits, bit_or_fits, bit_xor_fits, Bool-cases,
  ltb, ltb→lt, ==_iff, inl, inr,
}

-- The one field, `_value`, and the operators. A value of the enumeration is its number.
pub record Flags : Type 0 where
  pub value : ℕ

abbrev pub of_value : ℕ → Flags
of_value v = record { value = v }

abbrev no_flags : Flags
no_flags = of_value 0

-- operator~, where the conversion to the underlying type drops what is above w bits.
unfoldable pub complement : ℕ → Flags → Flags
complement w a = of_value (2 ^ w - 1 - a.value)

unfoldable pub both : Flags → Flags → Flags
both a b = of_value (bit_and a.value b.value)

unfoldable pub either : Flags → Flags → Flags
either a b = of_value (bit_or a.value b.value)

unfoldable pub exactly_one : Flags → Flags → Flags
exactly_one a b = of_value (bit_xor a.value b.value)

-- The operators &=, |= and ^=, and the assignment of a value.
unfoldable and_assign : Flags → Flags → Flags
and_assign a b = record a { value = bit_and a.value b.value }

unfoldable or_assign : Flags → Flags → Flags
or_assign a b = record a { value = bit_or a.value b.value }

unfoldable xor_assign : Flags → Flags → Flags
xor_assign a b = record a { value = bit_xor a.value b.value }

unfoldable assign_value : Flags → ℕ → Flags
assign_value a v = record a { value = v }

-- The operators &, | and ^ of two values of the enumeration.
unfoldable values_and : ℕ → ℕ → Flags
unfolding both
values_and v w = both (of_value v) (of_value w)

unfoldable values_or : ℕ → ℕ → Flags
unfolding either
values_or v w = either (of_value v) (of_value w)

unfoldable values_xor : ℕ → ℕ → Flags
unfolding exactly_one
values_xor v w = exactly_one (of_value v) (of_value w)

unfoldable pub equal_flags : Flags → Flags → Bool
equal_flags a b = a.value == b.value

unfoldable pub isset : Flags → Bool
isset a = not (a.value == 0)

unfoldable pub isset_value : Flags → ℕ → Bool
isset_value a v = not (bit_and a.value v == 0)

unfoldable swap : Flags × Flags → Flags × Flags
swap (a, b) = (b, a)

-- A value of the underlying type.
abbrev pub Fits : ℕ → Flags → Type 0
Fits w a = a.value < 2 ^ w

-- Below w bits, all digits agree or none is set.
abbrev pub SameBits : ℕ → ℕ → ℕ → Type 0
SameBits w a b = (i : ℕ) → i < w → bit i a ≡ bit i b

bit_beyond : (i w a : ℕ) → ltb i w ≡ false → a < 2 ^ w → bit i a ≡ false
bit_beyond i w a beyond p = bit_above i w a (ground arith) p

same-SameBits : (w a b : ℕ) → a < 2 ^ w → b < 2 ^ w → SameBits w a b → a ≡ b
same-SameBits w a b p q same = bit-inj a b (λ i. elim (Bool-cases (ltb i w)) [
  | inl below ↦ same i (ltb→lt i w below)
  | inr beyond ↦ bit_beyond i w a beyond p ∙ sym (bit_beyond i w b beyond q)
])

equal_iff :
    (w : ℕ) (a b : Flags)
    → Fits w a
    → Fits w b
    → (equal_flags a b ≡ true) ↔ SameBits w a.value b.value
unfolding equal_flags
equal_iff w a b p q = (
  λ e i below. ap (bit i) ((==_iff a.value b.value).0 e),
  λ same. (==_iff a.value b.value).1 (same-SameBits w a.value b.value p q same),
)

-- Whether flags of w bits have a digit in common with v.
isset_iff :
    (w v : ℕ) (a : Flags)
    → Fits w a
    → v < 2 ^ w
    → (isset_value a v ≡ false) ↔ ((i : ℕ) → i < w → (bit i a.value && bit i v) ≡ false)
unfolding isset_value
isset_iff w v a p q = (
  λ none_set i below. sym (bit-bit_and i a.value v) ∙ ap (bit i) (ground arith) ∙ bit-zero i,
  λ apart. ap not (
      (==_iff (bit_and a.value v) 0).1 (
        same-SameBits w (bit_and a.value v) 0 (bit_and_fits w a.value v p q) (omega (arith, p))
          (λ i below. bit-bit_and i a.value v ∙ apart i below ∙ sym (bit-zero i)))),
)

-- Flags of an underlying type of w bits are sets of the numbers below w, by their binary digits: the
-- operators &, |, ^ and ~ are intersection, union, symmetric difference and complement, and their
-- results fit the type; == is equality of sets; isset() is false of the empty set only, and isset of
-- a value is false exactly if no digit is in both.
pub flags_lem :
    (w v : ℕ) (a b : Flags)
    → Fits w a
    → Fits w b
    → v < 2 ^ w
    → ((i : ℕ) → bit i (both a b).value ≡ (bit i a.value && bit i b.value))
      × ((i : ℕ) → bit i (either a b).value ≡ (bit i a.value || bit i b.value))
      × ((i : ℕ)
          → bit i (exactly_one a b).value
            ≡ (if bit i a.value then not (bit i b.value) else bit i b.value))
      × ((i : ℕ) → i < w → bit i (complement w a).value ≡ not (bit i a.value))
      × (Fits w (both a b)
          × Fits w (either a b)
          × Fits w (exactly_one a b)
          × Fits w (complement w a))
      × ((equal_flags a b ≡ true) ↔ SameBits w a.value b.value)
      × ((isset a ≡ false) ↔ SameBits w a.value 0)
      × ((isset_value a v ≡ false) ↔ ((i : ℕ) → i < w → (bit i a.value && bit i v) ≡ false))
unfolding both either exactly_one complement isset equal_flags
flags_lem w v a b p q fits = (
  λ i. bit-bit_and i a.value b.value,
  λ i. bit-bit_or i a.value b.value,
  λ i. bit-bit_xor i a.value b.value,
  λ i below. bit-complement i w a.value below p,
  (
    bit_and_fits w a.value b.value p q,
    bit_or_fits w a.value b.value p q,
    bit_xor_fits w a.value b.value p q,
    omega (arith, p),
  ),
  equal_iff w a b p q,
  (
    λ e. (equal_iff w a no_flags p (omega (arith, p))).0 (ground arith),
    λ same. ground (arith, (equal_iff w a no_flags p (omega (arith, p))).1 same),
  ),
  isset_iff w v a p fits,
)
