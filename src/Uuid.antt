-- ===== src/Uuid.antt =====
-- include/server/uuid.h and source/server/uuid.cpp: the 16 bytes of a UUID, its text and its parser.
pub mod Hex
pub mod Decode
pub mod Loop
pub mod Parse
pub mod Roundtrip
pub mod Order
use kernel_udp_tcp.Prelude.{
  ℕ, zero, suc, ◌+◌, ◌-◌, ◌*◌, ◌/◌, ◌%◌, ◌^◌, Bool, true, false, not, ◌&&◌, ◌||◌, List, [], ◌∷◌,
  get_or, set, replicate, length, ltb, leb, ◌==◌, if◌then◌else◌,
}

-- A constructor that throws, or its value; `out_of_bounds` is a write past the end of the array,
-- whose behaviour is undefined.
pub data Parsed {ℓ} (A : Type ℓ) : Type ℓ where
  ok : A → Parsed A
  domain_exception : Parsed A
  argument_exception : Parsed A
  out_of_bounds : Parsed A

infixl 5 ◌>>=◌
abbrev pub ◌>>=◌ {ℓ κ} : {A : Type ℓ} {B : Type κ} → Parsed A → (A → Parsed B) → Parsed B
ok a >>= f = f a
domain_exception >>= f = domain_exception
argument_exception >>= f = argument_exception
out_of_bounds >>= f = out_of_bounds

-- std::array<uint8_t, 16>, as the list of its bytes.
abbrev pub Bytes : Type 0
Bytes = List ℕ

abbrev pub nil : Bytes
nil = replicate 16 0

abbrev digits : List ℕ
digits =
    b'0' ∷ b'1' ∷ b'2' ∷ b'3' ∷ b'4' ∷ b'5' ∷ b'6' ∷ b'7' ∷ b'8' ∷ b'9' ∷ b'a' ∷ b'b' ∷ b'c' ∷ b'd'
    ∷ b'e' ∷ b'f' ∷ []

-- digits[value & 0x0F]
unfoldable pub hex_digit : ℕ → ℕ
hex_digit v = get_or digits (v % 16) 0

abbrev is_group_end : ℕ → Bool
is_group_end index = index == 8 || index == 13 || index == 18 || index == 23

-- The loop of `string`: the bytes left, `index` and `result`.
unfoldable string_loop : Bytes → ℕ → List ℕ → List ℕ
string_loop [] index result = result
string_loop (value ∷ rest) index result =
    let result1 = set result index (hex_digit (value / 16)) in
    let result2 = set result1 (index + 1) (hex_digit value) in
    let ends = is_group_end (index + 2) in
    string_loop rest (if ends then index + 3 else index + 2)
      (if ends then set result2 (index + 2) b'-' else result2)

unfoldable pub string : Bytes → List ℕ
unfolding string_loop
string bytes = string_loop bytes 0 (replicate 36 b'0')

unfoldable pub unhex : ℕ → Parsed ℕ
unhex ch =
    if leb b'0' ch && leb ch b'9'
    then ok (ch - b'0')
    else if leb b'a' ch && leb ch b'f'
    then ok (10 + ch - b'a')
    else if leb b'A' ch && leb ch b'F'
    then ok (10 + ch - b'A')
    else domain_exception

abbrev is_skipped : ℕ → Bool
is_skipped ch = ch == b'-' || ch == b'{' || ch == b'}'

-- The locals of the parsing constructor; v2 is dead once its byte is stored.
pub record Scan : Type 0 where
  pub v1 : ℕ
  pub pack : Bool
  pub index : ℕ
  pub bytes : Bytes

-- The two digits of a byte, with the range check, stored at `index`.
unfoldable pub store : Scan → ℕ → Parsed Scan
store s ch = do
  ui1 ← unhex s.v1
  ui2 ← unhex ch
  if ltb 15 ui1 || ltb 15 ui2
      then argument_exception
      else if ltb s.index (length s.bytes)
      then ok (record s {
        pack = false;
        index = s.index + 1;
        bytes = set s.bytes s.index ((ui1 * 16 + ui2) % 256);
      })
      else out_of_bounds

-- What an iteration of the parsing loop leaves: the next state, or the state at its `break`.
pub data Flow : Type 0 where
  continues : Scan → Flow
  breaks : Scan → Flow

-- The body of the parsing loop.
unfoldable pub scan_char : ℕ → Scan → Parsed Flow
scan_char ch s =
    if is_skipped ch
    then ok (continues s)
    else if s.pack
    then (do s' ← store s ch; ok (if leb 16 s'.index then breaks s' else continues s'))
    else ok (continues (record s { v1 = ch; pack = true }))

unfoldable pub scan : List ℕ → Scan → Parsed Scan
unfolding scan_char
scan [] s = ok s
scan (ch ∷ rest) s = do
  flow ← scan_char ch s
  elim flow [ continues s' ↦ scan rest s' | breaks s' ↦ ok s' ]

-- `for (; index < 16; ++index) _data[index++] = 0;`: two up in each round, so 16 rounds suffice.
unfoldable pub zero_rest : ℕ → ℕ → Bytes → Bytes
zero_rest zero index bytes = bytes
zero_rest (suc fuel) index bytes =
    if ltb index 16 then zero_rest fuel (index + 2) (set bytes index 0) else bytes

-- UUID(const char*, size_t)
unfoldable pub parse : List ℕ → Parsed Bytes
unfolding scan zero_rest
parse text = do
  s ← scan text (record { v1 = 0; pack = false; index = 0; bytes = nil })
  ok (zero_rest 16 s.index s.bytes)

-- The copy of Sequential(), from the 16 bytes that uuid_generate_time wrote.
unfoldable pub generated : Bytes → Bytes
generated uuid =
    let at = λ (i : ℕ). get_or uuid i 0 in
    at 0
    ∷ at 1
    ∷ at 2
    ∷ at 3
    ∷ at 4
    ∷ at 5
    ∷ at 6
    ∷ at 7
    ∷ at 8
    ∷ at 9
    ∷ at 10
    ∷ at 11
    ∷ at 12
    ∷ at 13
    ∷ at 14
    ∷ at 15
    ∷ []

-- Random() does the same with the bytes of uuid_generate_random.
unfoldable random : Bytes → Bytes
unfolding generated
random uuid = generated uuid

-- operator< and operator== of the array: lexicographic.
unfoldable pub less : Bytes → Bytes → Bool
less [] [] = false
less [] (y ∷ ys) = true
less (x ∷ xs) [] = false
less (x ∷ xs) (y ∷ ys) = ltb x y || (x == y && less xs ys)

unfoldable pub equals : Bytes → Bytes → Bool
equals [] [] = true
equals [] (y ∷ ys) = false
equals (x ∷ xs) [] = false
equals (x ∷ xs) (y ∷ ys) = x == y && equals xs ys

-- explicit operator bool
unfoldable pub is_set : Bytes → Bool
unfolding equals
is_set bytes = not (equals bytes nil)

-- std::hash<UUID>; the hash of a byte is the library's.
unfoldable hash_loop : (ℕ → ℕ) → ℕ → Bytes → ℕ
hash_loop hasher result [] = result
hash_loop hasher result (b ∷ rest) = hash_loop hasher ((result * 31 + hasher b) % 2 ^ 64) rest

unfoldable pub hash : (ℕ → ℕ) → Bytes → ℕ
unfolding hash_loop
hash hasher bytes = hash_loop hasher 17 bytes
