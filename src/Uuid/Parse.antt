-- ===== src/Uuid/Parse.antt =====
-- The parsing constructor of a UUID against a description with no indices and no loop state.
use kernel_udp_tcp.Prelude.{ℕ, ◌≡◌, refl, ◌∙◌, false, List, []}
use kernel_udp_tcp.Uuid.{
  Parsed, ok, domain_exception, argument_exception, out_of_bounds, Bytes, parse,
}
use kernel_udp_tcp.Uuid.Decode.{strip, decode, prepend}
use kernel_udp_tcp.Uuid.Loop.{scan_lem}

-- On every text the constructor of UUID agrees with a description that has no indices and no loop
-- state: leave out dashes and braces, read sixteen bytes from two digits each, zero bytes where
-- digits are missing, an odd last digit dropped, and a domain exception at a character among the
-- first thirty-two that is no digit.
pub parse_lem : (text : List ℕ) → parse text ≡ decode 16 (strip text)
unfolding parse
parse_lem text = scan_lem text [] 15 0 false refl ∙ plain (decode 16 (strip text))
  where
    plain : (p : Parsed Bytes) → prepend [] p ≡ p
    plain (ok x) = refl
    plain domain_exception = refl
    plain argument_exception = refl
    plain out_of_bounds = refl
