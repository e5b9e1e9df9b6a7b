-- ===== src/Tests/Thread.antt =====
-- Threads at concrete values.
use kernel_udp_tcp.Prelude.{ℕ, ◌≡◌, refl, Bool, true, false, ◌&&◌, ltb, some}
use kernel_udp_tcp.Thread.{
  Sched, System, SystemLaws, sched_other, low, normal, get_priority, set_priority, set_affinity,
  get_affinity, copy_bits, current_thread_affinity,
}
use kernel_udp_tcp.Thread.Priority.{set_priority-get_priority}
use kernel_udp_tcp.Thread.Affinity.{set_affinity-get_affinity}

-- A system on which every call succeeds.
abbrev permissive : System
permissive = record {
  getschedparam = λ s. some (s.policy, s.priority);
  setparam = λ n s. some (record s { priority = n });
  setschedparam = λ p n s. some (record s { policy = p; priority = n });
  getaffinity = λ s. some s.cpus;
  setaffinity = λ c s. some (record s { cpus = c });
}

some_inj {ℓ} : {A : Type ℓ} {x y : A} → some x ≡ some y → y ≡ x
some_inj e = cc

permissive-SystemLaws : SystemLaws permissive
permissive-SystemLaws = record {
  reads = λ s r e. some_inj e;
  sets_param = λ n s t e. some_inj e;
  sets_schedparam = λ p n s t e. some_inj e;
  reads_affinity = λ s c e. some_inj e;
  sets_affinity = λ c s t e. some_inj e;
}

abbrev thread : Sched
thread = record { policy = sched_other; priority = 0; cpus = λ _. true }

set_priority-get_priority_example : normal ≡ normal
unfolding set_priority get_priority
set_priority-get_priority_example =
    set_priority-get_priority permissive permissive-SystemLaws low normal thread
      (record thread { priority = 30 }) refl refl

abbrev first_two : ℕ → Bool
first_two n = ltb n 2

abbrev pinned : Sched
pinned = record thread { cpus = copy_bits 64 0 first_two (λ _. false) }

abbrev seen : ℕ → Bool
seen = copy_bits 64 0 pinned.cpus (λ _. false)

set_affinity-get_affinity_example : seen 1 ≡ (ltb 1 64 && first_two 1)
unfolding set_affinity get_affinity
set_affinity-get_affinity_example =
    set_affinity-get_affinity permissive permissive-SystemLaws first_two seen thread pinned 1 refl
      refl

no_cpu : current_thread_affinity 0xffffffff ≡ 0
unfolding current_thread_affinity
no_cpu = refl
