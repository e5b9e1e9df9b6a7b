-- ===== src/Uuid/Roundtrip.antt =====
-- The text of a UUID: its shape, and that the parser reads it back.
use kernel_udp_tcp.Prelude.{
  ℕ, ◌+◌, ◌*◌, ◌/◌, ◌%◌, ◌<◌, ◌≡◌, refl, List, [], ◌∷◌, ◌++◌, arith, length, take, drop, All,
}
use kernel_udp_tcp.Uuid.{ok, Bytes, hex_digit, string, parse}
use kernel_udp_tcp.Uuid.Hex.{unhex-hex_digit, is_skipped-hex_digit}
use kernel_udp_tcp.Uuid.Decode.{strip, decode}
use kernel_udp_tcp.Uuid.Parse.{parse_lem}

-- The two digits of each byte.
pub hexes : Bytes → List ℕ
hexes [] = []
hexes (b ∷ rest) = hex_digit (b / 16) ∷ hex_digit b ∷ hexes rest

decode-hexes :
    (bytes : Bytes) → All (λ b. b < 256) bytes → decode (length bytes) (hexes bytes) ≡ ok bytes
unfolding decode hexes
decode-hexes [] h = refl
decode-hexes (b ∷ rest) h =
    let e : b / 16 % 16 * 16 + b % 16 ≡ b = omega arith in
    rw (unhex-hex_digit (b / 16), unhex-hex_digit b, decode-hexes rest h.1, e)

-- The text of a byte, and of a byte that ends a group.
strip-byte : (v : ℕ) (text : List ℕ) → strip (hex_digit v ∷ text) ≡ hex_digit v ∷ strip text
unfolding strip
strip-byte v text = rw (is_skipped-hex_digit v)

strip-dash : (text : List ℕ) → strip (b'-' ∷ text) ≡ strip text
unfolding strip
strip-dash text = refl

strip-nil : strip [] ≡ []
unfolding strip
strip-nil = refl

-- An array of sixteen bytes, taken apart.
of_sixteen {ℓ} :
    (P : Bytes → Type ℓ)
    → ((b0 b1 b2 b3 b4 b5 b6 b7 b8 b9 b10 b11 b12 b13 b14 b15 : ℕ)
        → P (
            b0 ∷ b1 ∷ b2 ∷ b3 ∷ b4 ∷ b5 ∷ b6 ∷ b7 ∷ b8 ∷ b9 ∷ b10 ∷ b11 ∷ b12 ∷ b13 ∷ b14 ∷ b15
            ∷ []))
    → (bytes : Bytes) → length bytes ≡ 16
    → P bytes
of_sixteen P p
      (b0 ∷ b1 ∷ b2 ∷ b3 ∷ b4 ∷ b5 ∷ b6 ∷ b7 ∷ b8 ∷ b9 ∷ b10 ∷ b11 ∷ b12 ∷ b13 ∷ b14 ∷ b15 ∷ []) h =
    p b0 b1 b2 b3 b4 b5 b6 b7 b8 b9 b10 b11 b12 b13 b14 b15
of_sixteen P p _ h = absurd (omega arith)

-- The canonical form of thirty-two digits: groups of 8, 4, 4, 4 and 12 with a dash between them.
pub grouped : List ℕ → List ℕ
grouped hs =
    take 8 hs
    ++ (b'-' ∷ take 4 (drop 8 hs))
    ++ (b'-' ∷ take 4 (drop 12 hs))
    ++ (b'-' ∷ take 4 (drop 16 hs))
    ++ (b'-' ∷ drop 20 hs)

-- UUID::string() of sixteen bytes is their digits in groups of 8, 4, 4, 4 and 12 with dashes
-- between them: 36 characters, and no write of its loop is lost.
pub string-grouped :
    (bytes : Bytes)
    → length bytes ≡ 16
    → (string bytes ≡ grouped (hexes bytes)) × (length (string bytes) ≡ 36)
unfolding string grouped hexes
string-grouped =
    of_sixteen (λ bytes. (string bytes ≡ grouped (hexes bytes)) × (length (string bytes) ≡ 36))
      (λ b0 b1 b2 b3 b4 b5 b6 b7 b8 b9 b10 b11 b12 b13 b14 b15. (refl, refl))

strip-string : (bytes : Bytes) → length bytes ≡ 16 → strip (string bytes) ≡ hexes bytes
unfolding string hexes
strip-string =
    of_sixteen (λ bytes. strip (string bytes) ≡ hexes bytes)
      (λ b0 b1 b2 b3 b4 b5 b6 b7 b8 b9 b10 b11 b12 b13 b14 b15.
        simp (strip-byte, strip-dash, strip-nil))

-- Parsing what UUID::string() wrote for sixteen bytes gives the same sixteen bytes.
pub parse-string :
    (bytes : Bytes) → length bytes ≡ 16 → All (λ b. b < 256) bytes → parse (string bytes) ≡ ok bytes
parse-string bytes n h =
    rw (parse_lem (string bytes), strip-string bytes n, ← n) (decode-hexes bytes h)
