-- ===== src/Uuid/Loop.antt =====
-- The loops of the parsing constructor, character by character.
use mathlib.Core.List.{append_assoc, append-nil}
use kernel_udp_tcp.Prelude.{
  ℕ, zero, suc, ◌+◌, ◌*◌, ◌≤◌, ◌≡◌, refl, ap, ◌∙◌, inl, inr, Bool, true, false, List, [], ◌∷◌, ◌++◌,
  arith, ltb, leb, if◌then◌else◌, Bool-cases, length, set, replicate, length-append,
}
use kernel_udp_tcp.Uuid.{
  Parsed, ok, domain_exception, argument_exception, out_of_bounds, ◌>>=◌, Bytes, Scan, Flow,
  continues, breaks, is_skipped, unhex, store, scan_char, scan, zero_rest,
}
use kernel_udp_tcp.Uuid.Hex.{unhex-lt}
use kernel_udp_tcp.Uuid.Decode.{strip, decode, prepend}

set_next :
    (xs : Bytes) (n v : ℕ)
    → set (xs ++ replicate (suc n) 0) (length xs) v ≡ (xs ++ v ∷ []) ++ replicate n 0
set_next [] n v = refl
set_next (x ∷ xs) n v = ap (◌∷◌ x) (set_next xs n v)

set_zero :
    (xs : Bytes) (n i : ℕ) → length xs ≤ i → set (xs ++ replicate n 0) i 0 ≡ xs ++ replicate n 0
set_zero [] zero i h = refl
set_zero [] (suc n) zero h = refl
set_zero [] (suc n) (suc i) h = ap (◌∷◌ 0) (set_zero [] n i (omega arith))
set_zero (x ∷ xs) n zero h = absurd (omega arith)
set_zero (x ∷ xs) n (suc i) h = ap (◌∷◌ x) (set_zero xs n i (omega arith))

-- The last loop of the constructor finds the rest of the array zero already.
zero_rest_done :
    (f : ℕ) (xs : Bytes) (n i : ℕ)
    → length xs ≤ i
    → zero_rest f i (xs ++ replicate n 0) ≡ xs ++ replicate n 0
unfolding zero_rest
zero_rest_done zero xs n i h = refl
zero_rest_done (suc f) xs n i h = elim (Bool-cases (ltb i 16)) [
  | inl lt ↦ rw lt (rw (set_zero xs n i h) (zero_rest_done f xs n (i + 2) (omega arith)))
  | inr ge ↦ rw ge refl
]

-- The digits that the scan has still to decode: the one kept in v1, then those of the text.
abbrev pending : Bool → ℕ → List ℕ → List ℕ
pending true v1 text = v1 ∷ strip text
pending false v1 text = strip text

abbrev state : Bool → ℕ → Bytes → ℕ → Scan
state pack v1 xs n = record { v1 = v1; pack = pack; index = length xs; bytes = xs ++ replicate n 0 }

abbrev bytes_of : Parsed Scan → Parsed Bytes
bytes_of p = p >>= λ s. ok (zero_rest 16 s.index s.bytes)

store_lem :
    (xs : Bytes) (n v1 ch : ℕ)
    → store (state true v1 xs (suc n)) ch
      ≡ (do x ← unhex v1; y ← unhex ch; ok (state false v1 (xs ++ (x * 16 + y) ∷ []) n))
unfolding store
store_lem xs n v1 ch = go (unhex v1) (unhex ch) refl refl
  where
    go :
        (p q : Parsed ℕ)
        → unhex v1 ≡ p
        → unhex ch ≡ q
        → store (state true v1 xs (suc n)) ch
          ≡ (do x ← unhex v1; y ← unhex ch; ok (state false v1 (xs ++ (x * 16 + y) ∷ []) n))
    go (ok x) (ok y) e f =
        rw (e, f)
          (ground (
            arith,
            unhex-lt v1 e,
            unhex-lt ch f,
            set_next xs n (x * 16 + y),
            length-append xs ((x * 16 + y) ∷ []),
            length-append xs (replicate (suc n) 0),
          ))
    go (ok x) domain_exception e f = rw (e, f)
    go (ok x) argument_exception e f = rw (e, f)
    go (ok x) out_of_bounds e f = rw (e, f)
    go domain_exception q e f = rw (e)
    go argument_exception q e f = rw (e)
    go out_of_bounds q e f = rw (e)

prepend_cons :
    (xs : Bytes) (v : ℕ) (p : Parsed Bytes)
    → prepend (xs ++ v ∷ []) p ≡ prepend xs (p >>= λ bytes. ok (v ∷ bytes))
prepend_cons xs v (ok bytes) = ap ok (append_assoc xs (v ∷ []) bytes)
prepend_cons xs v domain_exception = refl
prepend_cons xs v argument_exception = refl
prepend_cons xs v out_of_bounds = refl

-- What the scan does after a byte is stored: stop at sixteen, or go on.
abbrev resume : List ℕ → Scan → Parsed Bytes
resume rest s = bytes_of (if leb 16 s.index then ok s else scan rest s)

resume_lem :
    (rest xs : List ℕ) (n v1 v : ℕ)
    → length xs + suc n ≡ 16
    → ((m : ℕ)
        → n ≡ suc m
        → bytes_of (scan rest (state false v1 (xs ++ v ∷ []) n))
          ≡ prepend (xs ++ v ∷ []) (decode n (strip rest)))
    → resume rest (state false v1 (xs ++ v ∷ []) n)
      ≡ prepend xs (decode n (strip rest) >>= λ bytes. ok (v ∷ bytes))
unfolding decode
resume_lem rest xs zero v1 v h ih =
    let full : leb 16 (length (xs ++ v ∷ [])) ≡ true = ground (arith, length-append xs (v ∷ [])) in
    rw full (
      ap ok
        (zero_rest_done 16 (xs ++ v ∷ []) 0 (length (xs ++ v ∷ [])) (omega arith) ∙ append-nil _))
resume_lem rest xs (suc m) v1 v h ih =
    let room : leb 16 (length (xs ++ v ∷ [])) ≡ false = ground (arith, length-append xs (v ∷ [])) in
    rw room (ih m refl ∙ prepend_cons xs v (decode (suc m) (strip rest)))

-- The end of an iteration of `scan`, by what the iteration left.
abbrev follow : List ℕ → Flow → Parsed Scan
follow rest (continues s) = scan rest s
follow rest (breaks s) = ok s

follow_lem :
    (b : Bool) (rest : List ℕ) (s : Scan)
    → follow rest (if b then breaks s else continues s) ≡ (if b then ok s else scan rest s)
follow_lem true rest s = refl
follow_lem false rest s = refl

scan-suc :
    (ch : ℕ) (rest : List ℕ) (s : Scan) → scan (ch ∷ rest) s ≡ (scan_char ch s >>= follow rest)
unfolding scan
scan-suc ch rest s = go (scan_char ch s) refl
  where
    go : (p : Parsed Flow) → scan_char ch s ≡ p → scan (ch ∷ rest) s ≡ (p >>= follow rest)
    go (ok (continues s')) e = rw (e, scan)
    go (ok (breaks s')) e = rw (e, scan)
    go domain_exception e = rw (e, scan)
    go argument_exception e = rw (e, scan)
    go out_of_bounds e = rw (e, scan)

scan-nil : (s : Scan) → scan [] s ≡ ok s
unfolding scan
scan-nil s = refl

scan_stored :
    (rest xs : List ℕ) (n v1 : ℕ)
    → length xs + suc n ≡ 16
    → ((v m : ℕ)
        → n ≡ suc m
        → bytes_of (scan rest (state false v1 (xs ++ v ∷ []) n))
          ≡ prepend (xs ++ v ∷ []) (decode n (strip rest)))
    → (p q : Parsed ℕ)
    → bytes_of (
        ((do x ← p; y ← q; ok (state false v1 (xs ++ (x * 16 + y) ∷ []) n)) >>= λ s.
        ok (if leb 16 s.index then breaks s else continues s))
        >>= follow rest)
      ≡ prepend xs (do x ← p; y ← q; bytes ← decode n (strip rest); ok ((x * 16 + y) ∷ bytes))
scan_stored rest xs n v1 h ih (ok x) (ok y) =
    ap bytes_of (follow_lem _ rest _) ∙ resume_lem rest xs n v1 (x * 16 + y) h (ih (x * 16 + y))
scan_stored rest xs n v1 h ih (ok x) domain_exception = refl
scan_stored rest xs n v1 h ih (ok x) argument_exception = refl
scan_stored rest xs n v1 h ih (ok x) out_of_bounds = refl
scan_stored rest xs n v1 h ih domain_exception q = refl
scan_stored rest xs n v1 h ih argument_exception q = refl
scan_stored rest xs n v1 h ih out_of_bounds q = refl

pub scan_lem :
    (text xs : List ℕ) (n v1 : ℕ) (pack : Bool)
    → length xs + suc n ≡ 16
    → bytes_of (scan text (state pack v1 xs (suc n)))
      ≡ prepend xs (decode (suc n) (pending pack v1 text))
unfolding scan_char decode strip
scan_lem [] xs n v1 true h =
    rw (scan-nil) (ap ok (zero_rest_done 16 xs (suc n) (length xs) (omega arith)))
scan_lem [] xs n v1 false h =
    rw (scan-nil) (ap ok (zero_rest_done 16 xs (suc n) (length xs) (omega arith)))
scan_lem (ch ∷ rest) xs n v1 false h = elim (Bool-cases (is_skipped ch)) [
  | inl sep ↦ rw (scan-suc, sep) (scan_lem rest xs n v1 false h)
  | inr digit ↦ rw (scan-suc, digit) (scan_lem rest xs n ch true h)
]
scan_lem (ch ∷ rest) xs n v1 true h = elim (Bool-cases (is_skipped ch)) [
  | inl sep ↦ rw (scan-suc, sep) (scan_lem rest xs n v1 true h)
  | inr digit ↦
      rw (scan-suc, digit, store_lem xs n v1 ch)
        (scan_stored rest xs n v1 h
          (λ v m e.
            rw e
              (scan_lem rest (xs ++ v ∷ []) m v1 false (omega (arith, length-append xs (v ∷ [])))))
          (unhex v1) (unhex ch))
]
