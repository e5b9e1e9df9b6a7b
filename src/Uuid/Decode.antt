-- ===== src/Uuid/Decode.antt =====
-- What the text of a UUID stands for: sixteen bytes, with no indices and no loop state.
use kernel_udp_tcp.Prelude.{
  ℕ, zero, suc, ◌+◌, ◌*◌, ◌<◌, ◌≡◌, refl, ap, ◌⊎◌, inl, inr, List, [], ◌∷◌, ◌++◌, arith,
  if◌then◌else◌, length, replicate, All,
}
use kernel_udp_tcp.Uuid.{Parsed, ok, domain_exception, ◌>>=◌, Bytes, is_skipped, unhex}
use kernel_udp_tcp.Uuid.Hex.{unhex_cases}

-- The text without its separators.
unfoldable pub strip : List ℕ → List ℕ
strip [] = []
strip (ch ∷ rest) = if is_skipped ch then strip rest else ch ∷ strip rest

-- n bytes, from two digits each; missing digits are zero bytes, and an odd last digit is dropped.
unfoldable pub decode : ℕ → List ℕ → Parsed Bytes
decode zero ds = ok []
decode (suc n) [] = ok (replicate (suc n) 0)
decode (suc n) (a ∷ []) = ok (replicate (suc n) 0)
decode (suc n) (a ∷ b ∷ rest) = do
  x ← unhex a
  y ← unhex b
  bytes ← decode n rest
  ok ((x * 16 + y) ∷ bytes)

abbrev pub prepend : Bytes → Parsed Bytes → Parsed Bytes
prepend xs p = p >>= λ ys. ok (xs ++ ys)

abbrev IsArray : ℕ → Bytes → Type 0
IsArray n bytes = (length bytes ≡ n) × All (λ b. b < 256) bytes

-- A domain exception, or n bytes.
abbrev Decoded : ℕ → Parsed Bytes → Type 0
Decoded n p = (p ≡ domain_exception) ⊎ ((bytes : Bytes) × (p ≡ ok bytes) × IsArray n bytes)

zeros-IsArray : (n : ℕ) → IsArray n (replicate n 0)
zeros-IsArray zero = (refl, tt)
zeros-IsArray (suc n) = (ap suc (zeros-IsArray n).0, (omega arith, (zeros-IsArray n).1))

pub decode-Decoded : (n : ℕ) (ds : List ℕ) → Decoded n (decode n ds)
unfolding decode
decode-Decoded zero ds = inr ([], refl, (refl, tt))
decode-Decoded (suc n) [] = inr (_, refl, zeros-IsArray (suc n))
decode-Decoded (suc n) (a ∷ []) = inr (_, refl, zeros-IsArray (suc n))
decode-Decoded (suc n) (a ∷ b ∷ rest) = elim (unhex_cases a) [
  | inl bad ↦ rw bad (inl refl)
  | inr (x, ea, xa) ↦ elim (unhex_cases b) [
    | inl bad ↦ rw (ea, bad) (inl refl)
    | inr (y, eb, yb) ↦ elim (decode-Decoded n rest) [
      | inl bad ↦ rw (ea, eb, bad) (inl refl)
      | inr (bytes, e, array) ↦
          rw (ea, eb, e) (inr (_, refl, (ap suc array.0, (omega arith, array.1))))
    ]
  ]
]
