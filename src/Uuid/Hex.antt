-- ===== src/Uuid/Hex.antt =====
-- The characters of a UUID: what `hex_digit` writes and `unhex` reads.
use kernel_udp_tcp.Prelude.{
  ℕ, ◌%◌, ◌<◌, ◌≡◌, refl, ◌≢◌, ◌⊎◌, inl, inr, not, Bool, true, false, arith, ◌==◌, tabulate,
  tabulate-at,
}
use kernel_udp_tcp.Uuid.{
  Parsed, ok, domain_exception, argument_exception, out_of_bounds, hex_digit, unhex, is_skipped,
}

is_ok : ℕ → Parsed ℕ → Bool
is_ok v (ok x) = x == v
is_ok v domain_exception = false
is_ok v argument_exception = false
is_ok v out_of_bounds = false

is_ok_sound : (v : ℕ) (p : Parsed ℕ) → is_ok v p ≡ true → p ≡ ok v
unfolding is_ok
is_ok_sound v p h = ground arith

hex_table : tabulate (λ v. is_ok v (unhex (hex_digit v))) 16 ≡ true
unfolding tabulate is_ok unhex hex_digit
hex_table = refl

plain_table : tabulate (λ v. not (is_skipped (hex_digit v))) 16 ≡ true
unfolding tabulate hex_digit
plain_table = refl

hex_digit-mod : (v : ℕ) → hex_digit v ≡ hex_digit (v % 16)
unfolding hex_digit
hex_digit-mod v = let e : v % 16 % 16 ≡ v % 16 = omega arith in rw e

-- A written digit reads back as the low four bits.
pub unhex-hex_digit : (v : ℕ) → unhex (hex_digit v) ≡ ok (v % 16)
unhex-hex_digit v =
    rw (hex_digit-mod v)
      (is_ok_sound (v % 16) _ (tabulate-at _ 16 (v % 16) (omega arith) hex_table))

not-true : (b : Bool) → not b ≡ true → b ≡ false
not-true b h = ground arith

-- No written digit is a separator that the parser skips.
pub is_skipped-hex_digit : (v : ℕ) → is_skipped (hex_digit v) ≡ false
is_skipped-hex_digit v = rw (hex_digit-mod v) (
    not-true _
      (tabulate-at (λ u. not (is_skipped (hex_digit u))) 16 (v % 16) (omega arith) plain_table))

pub unhex-lt : (ch : ℕ) {x : ℕ} → unhex ch ≡ ok x → x < 16
unfolding unhex
unhex-lt ch h = ground arith

unhex-ne-argument : (ch : ℕ) → unhex ch ≢ argument_exception
unfolding unhex
unhex-ne-argument ch h = ground arith

unhex-ne-bounds : (ch : ℕ) → unhex ch ≢ out_of_bounds
unfolding unhex
unhex-ne-bounds ch h = ground arith

-- unhex yields four bits or a domain exception.
pub unhex_cases :
    (ch : ℕ) → (unhex ch ≡ domain_exception) ⊎ ((x : ℕ) × (unhex ch ≡ ok x) × (x < 16))
unhex_cases ch = go (unhex ch) refl
  where
    go :
        (p : Parsed ℕ)
        → unhex ch ≡ p
        → (unhex ch ≡ domain_exception) ⊎ ((x : ℕ) × (unhex ch ≡ ok x) × (x < 16))
    go (ok x) e = inr (x, e, unhex-lt ch e)
    go domain_exception e = inl e
    go argument_exception e = absurd (unhex-ne-argument ch e)
    go out_of_bounds e = absurd (unhex-ne-bounds ch e)
