-- ===== src/Tests/Uuid.antt =====
-- UUIDs at concrete values.
use kernel_udp_tcp.Prelude.{ℕ, ◌≡◌, ◌⊎◌, ◌↔◌, ◌&&◌, not, true, refl, false, List, [], ◌∷◌, arith}
use kernel_udp_tcp.Uuid.{
  Bytes, ok, domain_exception, string, parse, unhex, store, is_set, nil, hash, generated, less,
  equals,
}
use kernel_udp_tcp.Uuid.Decode.{decode, strip}
use kernel_udp_tcp.Uuid.Parse.{parse_lem}
use kernel_udp_tcp.Uuid.Order.{less-equals_order}
use kernel_udp_tcp.Uuid.Roundtrip.{parse-string}

abbrev sample : Bytes
sample = 0 ∷ 17 ∷ 34 ∷ 51 ∷ 68 ∷ 85 ∷ 102 ∷ 119 ∷ 136 ∷ 153 ∷ 170 ∷ 187 ∷ 204 ∷ 221 ∷ 238 ∷ 255 ∷ []

parse-string_example : parse (string sample) ≡ ok sample
parse-string_example = parse-string sample refl (omega arith)

-- "{a-B" and a NUL, as the constructor reads a literal: one byte, and zeros.
short_text :
    parse (b'{' ∷ b'a' ∷ b'-' ∷ b'B' ∷ 0 ∷ [])
    ≡ ok (171 ∷ 0 ∷ 0 ∷ 0 ∷ 0 ∷ 0 ∷ 0 ∷ 0 ∷ 0 ∷ 0 ∷ 0 ∷ 0 ∷ 0 ∷ 0 ∷ 0 ∷ 0 ∷ [])
unfolding parse store unhex
short_text = refl

bad_text : parse (b'0' ∷ b'x' ∷ []) ≡ domain_exception
unfolding parse store unhex
bad_text = refl

nil_is_unset : is_set nil ≡ false
unfolding is_set
nil_is_unset = refl

nil_hash : hash (λ b. b) (1 ∷ []) ≡ 528
unfolding hash
nil_hash = refl

copied : generated sample ≡ sample
unfolding generated
copied = refl

abbrev zeros : List ℕ
zeros = b'0' ∷ b'0' ∷ []

parse_lem_example : parse zeros ≡ decode 16 (strip zeros)
parse_lem_example = parse_lem zeros

less-equals_order_example :
    (less sample sample ≡ false)
    × ((less sample nil && less nil zeros && not (less sample zeros)) ≡ false)
    × ((less sample nil ≡ true) ⊎ (equals sample nil ≡ true) ⊎ (less nil sample ≡ true))
    × ((equals sample nil ≡ true) ↔ (sample ≡ nil))
less-equals_order_example = less-equals_order sample nil zeros
