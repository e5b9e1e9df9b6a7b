-- ===== src/Thread.antt =====
-- Thread (include/server/thread.h, source/server/thread.cpp): priorities and CPU affinities, over
-- the calls of the operating system, which are a parameter.
pub mod Priority
pub mod Affinity
pub mod Sleep
use kernel_udp_tcp.Prelude.{
  ℕ, zero, suc, ◌^◌, Text, bytes_of, Bool, true, false, ◌||◌, Option, none, some, ltb, ◌==◌, ◌≡◌,
  if◌then◌else◌,
}

pub data ThreadPriority : Type 0 where
  idle lowest low normal high highest realtime : ThreadPriority

pub data Policy : Type 0 where
  sched_other sched_fifo sched_rr : Policy

-- How the system schedules a thread, and the CPUs it may run on.
pub record Sched : Type 0 where
  pub policy : Policy
  pub priority : ℕ
  pub cpus : ℕ → Bool

-- The calls: on the current thread getparam and setparam, on a given one also its policy. `none` is
-- a result other than 0, where the source throws a SystemException.
pub record System : Type 0 where
  pub getschedparam : Sched → Option (Policy × ℕ)
  pub setparam : ℕ → Sched → Option Sched
  pub setschedparam : Policy → ℕ → Sched → Option Sched
  pub getaffinity : Sched → Option (ℕ → Bool)
  pub setaffinity : (ℕ → Bool) → Sched → Option Sched

-- The documented behaviour: a call that succeeds reads or sets what it names, and nothing else.
pub record SystemLaws (system : System) : Type 0 where
  pub reads :
      (s : Sched) (r : Policy × ℕ) → system.getschedparam s ≡ some r → r ≡ (s.policy, s.priority)
  pub sets_param :
      (n : ℕ) (s t : Sched) → system.setparam n s ≡ some t → t ≡ record s { priority = n }
  pub sets_schedparam :
      (p : Policy) (n : ℕ) (s t : Sched)
      → system.setschedparam p n s ≡ some t
      → t ≡ record s { policy = p; priority = n }
  pub reads_affinity : (s : Sched) (c : ℕ → Bool) → system.getaffinity s ≡ some c → c ≡ s.cpus
  pub sets_affinity :
      (c : ℕ → Bool) (s t : Sched) → system.setaffinity c s ≡ some t → t ≡ record s { cpus = c }

-- The level of a real-time priority, as GetPriority has it.
unfoldable pub level : ℕ → ThreadPriority
level n =
    if ltb n 15
    then idle
    else if ltb n 30
    then lowest
    else if ltb n 50
    then low
    else if ltb n 70
    then normal
    else if ltb n 85
    then high
    else if ltb n 99
    then highest
    else realtime

abbrev is_realtime : Policy → Bool
is_realtime sched_other = false
is_realtime sched_fifo = true
is_realtime sched_rr = true

-- GetPriority, of the current or of a given thread; `none` where it throws.
unfoldable pub get_priority : System → Sched → Option ThreadPriority
unfolding level
get_priority system s = elim (system.getschedparam s) [
  | none ↦ none
  | some (policy, n) ↦ some (if is_realtime policy then level n else normal)
]

-- The switch of SetPriority.
unfoldable pub sched_priority : ThreadPriority → ℕ
sched_priority idle = 1
sched_priority lowest = 15
sched_priority low = 30
sched_priority normal = 50
sched_priority high = 70
sched_priority highest = 85
sched_priority realtime = 99

-- SetPriority(priority) sets the parameter only; its local `policy` is not used.
unfoldable pub set_priority : System → ThreadPriority → Sched → Option Sched
unfolding sched_priority
set_priority system p s = system.setparam (sched_priority p) s

-- SetPriority(thread, priority)
unfoldable set_thread_priority : System → ThreadPriority → Sched → Option Sched
unfolding sched_priority
set_thread_priority system p s = system.setschedparam sched_rr (sched_priority p) s

-- The loop of SetAffinity and GetAffinity over the CPUs from i on, `n` of them: a bit that is set
-- in one set is set in the other.
unfoldable pub copy_bits : ℕ → ℕ → (ℕ → Bool) → (ℕ → Bool) → ℕ → Bool
copy_bits zero i from to = to
copy_bits (suc n) i from to =
    copy_bits n (suc i) from (if from i then (λ j. if j == i then true else to j) else to)

-- SetAffinity and GetAffinity of the first 64 CPUs; CPU_SETSIZE is larger.
unfoldable pub set_affinity : System → (ℕ → Bool) → Sched → Option Sched
unfolding copy_bits
set_affinity system affinity s = system.setaffinity (copy_bits 64 0 affinity (λ _. false)) s

unfoldable pub get_affinity : System → Sched → Option (ℕ → Bool)
unfolding copy_bits
get_affinity system s = elim (system.getaffinity s) [
  | none ↦ none
  | some cpus ↦ some (copy_bits 64 0 cpus (λ _. false))
]

-- CurrentThreadAffinity, from what sched_getcpu() returns, an int by its 32-bit pattern.
unfoldable pub current_thread_affinity : ℕ → ℕ
current_thread_affinity cpu = if ltb cpu (2 ^ 31) then cpu else 0

-- operator<< of a priority; a number outside of the enumeration is left out.
unfoldable priority_text : ThreadPriority → Text
priority_text idle = bytes_of "IDLE"
priority_text lowest = bytes_of "LOWEST"
priority_text low = bytes_of "LOW"
priority_text normal = bytes_of "NORMAL"
priority_text high = bytes_of "HIGH"
priority_text highest = bytes_of "HIGHEST"
priority_text realtime = bytes_of "REALTIME"
