-- ===== src/Tests/Utilities.antt =====
-- Errors, flags, alignment, time stamps and SleepFor at concrete values.
use kernel_udp_tcp.Prelude.{
  ℕ, ◌%◌, ◌^◌, ◌<◌, ◌≡◌, ◌↔◌, ◌==◌, ◌&&◌, ◌||◌, refl, ap, sym, true, false, not, none, some, List,
  [], ◌∷◌, All, bit, arith, if◌then◌else◌,
}
use kernel_udp_tcp.Errors.Signals.{
  sigterm, same, default_action, signal_handler, Dispositions, SigAction, SigActionSets, Impl,
  setup_process, handle_signal,
}
use kernel_udp_tcp.Errors.Setup.{SetUp, Ended, setup_process_lem, handle_signal_lem}
use kernel_udp_tcp.Flags.{
  Flags, of_value, both, either, exactly_one, complement, equal_flags, isset, isset_value, Fits,
  SameBits, flags_lem,
}
use kernel_udp_tcp.Memory.{is_valid_alignment, is_aligned, align}
use kernel_udp_tcp.Memory.Align.{align_lem}
use kernel_udp_tcp.Time.{Timespan, elapsed, seconds}
use kernel_udp_tcp.Thread.Sleep.{
  Ending, slept, interrupted, sleep_for, time_slept, Valid, sleep_for_lem,
}

-- A system that lets every signal be handled.
abbrev willing : SigAction
willing s d k = some (λ other. if same s other then d else k other)

willing-SigActionSets : SigActionSets willing
willing-SigActionSets s d k k' other e = ap (λ o. elim o [ none ↦ d | some f ↦ f other ]) (sym e)

abbrev untouched : Dispositions
untouched s = default_action

abbrev new_impl : Impl ℕ
new_impl = record { initialized = false; handler = 1 }

setup_process_example : SetUp willing new_impl (setup_process willing new_impl untouched)
setup_process_example = setup_process_lem willing new_impl untouched willing-SigActionSets refl

handle_signal_example :
    Ended willing new_impl sigterm
      (λ s. signal_handler)
      (handle_signal willing (λ n. []) new_impl sigterm (λ s. signal_handler))
handle_signal_example =
    handle_signal_lem willing (λ n. []) new_impl sigterm (λ s. signal_handler) willing-SigActionSets

abbrev readable : Flags
readable = of_value 0x24

abbrev writable : Flags
writable = of_value 0x12

flags_example :
    ((i : ℕ) → bit i (both readable writable).value ≡ (bit i 0x24 && bit i 0x12))
    × ((i : ℕ) → bit i (either readable writable).value ≡ (bit i 0x24 || bit i 0x12))
    × ((i : ℕ)
        → bit i (exactly_one readable writable).value
          ≡ (if bit i 0x24 then not (bit i 0x12) else bit i 0x12))
    × ((i : ℕ) → i < 8 → bit i (complement 8 readable).value ≡ not (bit i 0x24))
    × (Fits 8 (both readable writable)
        × Fits 8 (either readable writable)
        × Fits 8 (exactly_one readable writable)
        × Fits 8 (complement 8 readable))
    × ((equal_flags readable writable ≡ true) ↔ SameBits 8 0x24 0x12)
    × ((isset readable ≡ false) ↔ SameBits 8 0x24 0)
    × ((isset_value readable 0x20 ≡ false) ↔ ((i : ℕ) → i < 8 → (bit i 0x24 && bit i 0x20) ≡ false))
flags_example = flags_lem 8 0x20 readable writable (omega arith) (omega arith) (omega arith)

united : (either readable writable).value ≡ 0x36
unfolding either
united = refl

align_example :
    ((is_valid_alignment 64 ≡ true) ↔ ((k : ℕ) × (64 ≡ 2 ^ k)))
    × (is_aligned 1001 (2 ^ 4) ≡ (1001 % 2 ^ 4 == 0))
    × (align 1001 (2 ^ 4) false ≡ 992)
    × (align 1001 (2 ^ 4) true ≡ 1008)
align_example = align_lem 64 4 1001 (omega arith) (omega arith)

abbrev span : ℕ → Timespan
span n = record { duration = n }

stamp_differences :
    (elapsed (record { total = 5 }) (record { total = 9 })).duration ≡ 0xfffffffffffffffc
unfolding elapsed
stamp_differences = refl

-- Two and a half seconds, interrupted after one.
abbrev endings : List Ending
endings = interrupted (record { tv_sec = 1; tv_nsec = 500000000 }) ∷ slept ∷ []

sleep_for_example :
    (time_slept (sleep_for (span 2500000000) endings) ≡ 2500000000)
    × All (Valid 2500000000) (sleep_for (span 2500000000) endings)
unfolding seconds
sleep_for_example =
    sleep_for_lem (span 2500000000) endings (omega arith) (omega arith)
      (omega arith, omega arith, tt)
