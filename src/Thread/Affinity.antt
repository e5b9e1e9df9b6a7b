-- ===== src/Thread/Affinity.antt =====
-- The CPU affinity of a thread, set and read back.
use kernel_udp_tcp.Prelude.{
  ℕ, zero, suc, ◌+◌, inl, inr, Bool-cases, ◌≡◌, refl, ap, ◌∙◌, Bool, true, false, ◌||◌, ◌&&◌,
  Option, none, some, arith, leb, ltb, ◌==◌, if◌then◌else◌,
}
use kernel_udp_tcp.Thread.{Sched, System, SystemLaws, copy_bits, set_affinity, get_affinity}

copy_bits_lem :
    (n i : ℕ) (from to : ℕ → Bool) (j : ℕ)
    → copy_bits n i from to j ≡ (to j || (leb i j && ltb j (i + n) && from j))
unfolding copy_bits
copy_bits_lem zero i from to j = ground arith
copy_bits_lem (suc n) i from to j = elim (Bool-cases (from i)) [
  | inl set ↦ rw set (copy_bits_lem n (suc i) from (λ k. if k == i then true else to k) j ∙ bit set)
  | inr clear ↦ rw clear (copy_bits_lem n (suc i) from to j ∙ no_bit clear)
]
  where
    bit :
        from i ≡ true
        → ((if j == i then true else to j) || (leb (suc i) j && ltb j (suc i + n) && from j))
          ≡ (to j || (leb i j && ltb j (i + suc n) && from j))
    bit set = elim (Bool-cases (j == i)) [
      | inl same ↦
          let at : j ≡ i = ground arith in
          let here : from j ≡ true = ap from at ∙ set in ground arith
      | inr other ↦ ground arith
    ]

    no_bit :
        from i ≡ false
        → (to j || (leb (suc i) j && ltb j (suc i + n) && from j))
          ≡ (to j || (leb i j && ltb j (i + suc n) && from j))
    no_bit clear = elim (Bool-cases (j == i)) [
      | inl same ↦
          let at : j ≡ i = ground arith in
          let here : from j ≡ false = ap from at ∙ clear in ground arith
      | inr other ↦ ground arith
    ]

-- The affinity that SetAffinity has set is the one that GetAffinity reads, on each of the first 64
-- CPUs, and no other CPU is set. The calls of the system succeed, and do what they document.
pub set_affinity-get_affinity :
    (system : System) (laws : SystemLaws system) (affinity read : ℕ → Bool) (s t : Sched) (cpu : ℕ)
    → set_affinity system affinity s ≡ some t
    → get_affinity system t ≡ some read
    → read cpu ≡ (ltb cpu 64 && affinity cpu)
unfolding set_affinity get_affinity
set_affinity-get_affinity system laws affinity read s t cpu set got =
    go (system.getaffinity t) refl got
  where
    cleared : ℕ → Bool
    cleared _ = false

    kept : t.cpus cpu ≡ (ltb cpu 64 && affinity cpu)
    kept =
        ap (λ u. u.cpus cpu) (laws.sets_affinity (copy_bits 64 0 affinity cleared) s t set)
        ∙ copy_bits_lem 64 0 affinity cleared cpu
        ∙ ground arith

    go :
        (r : Option (ℕ → Bool))
        → system.getaffinity t ≡ r
        → (elim r [ none ↦ none | some cpus ↦ some (copy_bits 64 0 cpus cleared) ]) ≡ some read
        → read cpu ≡ (ltb cpu 64 && affinity cpu)
    go none e k = cc
    go (some cpus) e k =
        let same : read ≡ copy_bits 64 0 cpus cleared = cc in
        let now : cpus cpu ≡ t.cpus cpu = ap (λ c. c cpu) (laws.reads_affinity t cpus e) in
        ap (λ c. c cpu) same ∙ (copy_bits_lem 64 0 cpus cleared cpu ∙ ground (arith, kept))
