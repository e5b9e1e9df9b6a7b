-- ===== src/Service/RoundRobin.antt =====
-- The io_services that GetAsioService hands out.
use native.Mathlib.Nat.{mod-lt, mod-eq_of_lt, mod-add-mod, add-mod_right, mod-eq-sub-mod}
use kernel_udp_tcp.Prelude.{
  ℕ, zero, suc, ◌+◌, ◌-◌, ◌%◌, ◌^◌, ◌<◌, ◌≤◌, ◌≡◌, sym, ap, ◌∙◌, ◌≢◌, inl, inr, arith, Bool-cases,
  ltb,
}
use kernel_udp_tcp.Service.{Service, get_asio_service}

-- The service after k calls, and what the next call hands out.
unfoldable pub after : ℕ → Service → Service
unfolding get_asio_service
after zero s = s
after (suc k) s = after k (get_asio_service s).1

unfoldable pub handed_out : ℕ → Service → ℕ
unfolding get_asio_service
handed_out k s = (get_asio_service (after k s)).0

after_lem :
    (k : ℕ) (s : Service)
    → s.round_robin_index + k < 2 ^ 64
    → after k s ≡ record s { round_robin_index = s.round_robin_index + k }
unfolding after get_asio_service
after_lem zero s h = ap (λ i. record s { round_robin_index = i }) (omega arith)
after_lem (suc k) s h =
    let t = (get_asio_service s).1 in
    after_lem k t (omega arith) ∙ ap (λ i. record s { round_robin_index = i }) (omega arith)

handed_out_lem :
    (k : ℕ) (s : Service)
    → s.round_robin_index + suc k < 2 ^ 64
    → handed_out k s ≡ (s.round_robin_index + suc k) % s.services
unfolding handed_out get_asio_service
handed_out_lem k s h = rw (after_lem k s (omega arith)) (ap (λ i. i % s.services) (omega arith))

-- Numbers less than n apart leave different remainders.
shifted-mod : (a d n : ℕ) → 0 < d → d < n → ((a + d) % n) ≢ (a % n)
shifted-mod a d n pos small e =
    let r = a % n in
    let below : r < n = mod-lt a (omega arith) in
    let same : (r + d) % n ≡ r = mod-add-mod a n d ∙ e in
    elim (Bool-cases (ltb (r + d) n)) [
      | inl stays ↦ absurd (omega (arith, mod-eq_of_lt {n = r + d} {m = n} (ground arith), same))
      | inr wraps ↦
          let over : n ≤ r + d = ground arith in
          absurd (
            omega (
              arith,
              mod-eq-sub-mod {n = r + d} {m = n} over,
              mod-eq_of_lt {n = (r + d) - n} {m = n} (omega arith),
              same,
            ))
    ]

-- GetAsioService goes round the n io_services of a service, n at least 2: each call hands out one of
-- them, n calls later the same one is handed out again, and another one by each call in between.
-- The index has not reached 2^64.
pub get_asio_service_cycle :
    (k d : ℕ) (s : Service)
    → 0 < d
    → d < s.services
    → s.round_robin_index + suc k + s.services < 2 ^ 64
    → (handed_out k s < s.services)
      × (handed_out (k + s.services) s ≡ handed_out k s)
      × (handed_out (k + d) s ≢ handed_out k s)
get_asio_service_cycle k d s pos small bound =
    let a = s.round_robin_index + suc k in
    let now = handed_out_lem k s (omega arith) in
    let again = handed_out_lem (k + s.services) s (omega arith) in
    let between = handed_out_lem (k + d) s (omega arith) in
    let again' : (s.round_robin_index + suc (k + s.services)) % s.services ≡ a % s.services =
      ap (λ i. i % s.services) (omega arith) ∙ add-mod_right a s.services in
    let between' : (s.round_robin_index + suc (k + d)) % s.services ≡ (a + d) % s.services =
      ap (λ i. i % s.services) (omega arith) in
    (
      rw now (mod-lt a (omega arith)),
      again ∙ (again' ∙ sym now),
      λ e. shifted-mod a d s.services pos small (sym between' ∙ (sym between ∙ (e ∙ now))),
    )
