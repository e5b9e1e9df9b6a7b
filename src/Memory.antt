-- ===== src/Memory.antt =====
-- Memory (include/server/memory.h): alignment of addresses, which are numbers of 64 bits.
pub mod Alignment
pub mod Align
use kernel_udp_tcp.Prelude.{ℕ, ◌+◌, ◌-◌, ◌%◌, ◌^◌, ◌==◌, Bool, ◌&&◌, ltb, bit_and, if◌then◌else◌}

-- IsValidAlignment
unfoldable pub is_valid_alignment : ℕ → Bool
is_valid_alignment alignment = ltb 0 alignment && bit_and alignment (alignment - 1) == 0

-- `alignment - 1` of a size_t.
abbrev pub one_less : ℕ → ℕ
one_less alignment = (alignment + (2 ^ 64 - 1)) % 2 ^ 64

-- IsAligned
unfoldable pub is_aligned : ℕ → ℕ → Bool
is_aligned address alignment = bit_and address (one_less alignment) == 0

-- `-((int)alignment)` as it stands beside an address: the low 32 bits are negated as an int, whose
-- sign then fills the upper 32 bits.
unfoldable pub negated : ℕ → ℕ
negated alignment =
    let n = (2 ^ 32 - alignment % 2 ^ 32) % 2 ^ 32 in
    if ltb n (2 ^ 31) then n else n + (2 ^ 64 - 2 ^ 32)

-- Align
unfoldable pub align : ℕ → ℕ → Bool → ℕ
unfolding negated
align address alignment upwards =
    if upwards
    then bit_and ((address + one_less alignment) % 2 ^ 64) (negated alignment)
    else bit_and address (negated alignment)
