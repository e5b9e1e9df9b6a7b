-- ===== src/Time.antt =====
-- Timespan and Timestamp (include/server/timespan.h, include/server/timestamp.h). An int64_t is given
-- by its 64-bit pattern, like a uint64_t.
use kernel_udp_tcp.Prelude.{ℕ, ◌+◌, ◌-◌, ◌*◌, ◌/◌, ◌%◌, ◌^◌, ◌==◌, Bool, not, ltb, if◌then◌else◌}

pub record Timespan : Type 0 where
  pub duration : ℕ

abbrev is_negative : ℕ → Bool
is_negative n = not (ltb n (2 ^ 63))

-- The difference of two 64-bit patterns.
abbrev minus : ℕ → ℕ → ℕ
minus a b = (a + (2 ^ 64 - b)) % 2 ^ 64

-- seconds(); the division of a negative number rounds to 0.
unfoldable pub seconds : Timespan → ℕ
seconds t =
    if is_negative t.duration
    then minus 0 (minus 0 t.duration / 1000000000)
    else t.duration / 1000000000

-- Timespan::milliseconds; an overflow, which is undefined, wraps here.
unfoldable milliseconds : ℕ → Timespan
milliseconds n = record { duration = (n * 1000000) % 2 ^ 64 }

-- `<` of two int64_t.
abbrev pub below : ℕ → ℕ → Bool
below a b = ltb ((a + 2 ^ 63) % 2 ^ 64) ((b + 2 ^ 63) % 2 ^ 64)

unfoldable pub less_timespan : Timespan → Timespan → Bool
less_timespan t u = below t.duration u.duration

unfoldable pub equal_timespan : Timespan → Timespan → Bool
equal_timespan t u = t.duration == u.duration

pub record Timestamp : Type 0 where
  pub total : ℕ

-- The operators `-`: of a time stamp and an offset, and of two time stamps.
unfoldable pub earlier : Timestamp → Timespan → Timestamp
earlier t d = record { total = minus t.total d.duration }

unfoldable reflected : Timespan → Timestamp → Timestamp
reflected d t = record { total = minus d.duration t.total }

unfoldable pub elapsed : Timestamp → Timestamp → Timespan
elapsed t u = record { duration = minus t.total u.total }

-- std::hash; that of an int64_t is a parameter.
unfoldable hash_timestamp : (ℕ → ℕ) → Timestamp → ℕ
hash_timestamp hash t = (17 * 31 + hash t.total) % 2 ^ 64
