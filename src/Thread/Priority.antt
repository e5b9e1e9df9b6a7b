-- ===== src/Thread/Priority.antt =====
-- Priorities of threads, set and read back.
use kernel_udp_tcp.Prelude.{ℕ, ◌≡◌, refl, ap, sym, ◌∙◌, Option, none, some, if◌then◌else◌}
use kernel_udp_tcp.Thread.{
  ThreadPriority, idle, lowest, low, normal, high, highest, realtime, Policy, Sched, System,
  SystemLaws, level, get_priority, sched_priority, set_priority, is_realtime,
}

level-sched_priority : (p : ThreadPriority) → level (sched_priority p) ≡ p
unfolding level sched_priority
level-sched_priority idle = refl
level-sched_priority lowest = refl
level-sched_priority low = refl
level-sched_priority normal = refl
level-sched_priority high = refl
level-sched_priority highest = refl
level-sched_priority realtime = refl

read_back :
    (system : System) (laws : SystemLaws system) (s : Sched) (q : ThreadPriority)
    → get_priority system s ≡ some q
    → some q ≡ some (if is_realtime s.policy then level s.priority else normal)
unfolding get_priority
read_back system laws s q h = go (system.getschedparam s) refl h
  where
    go :
        (r : Option (Policy × ℕ))
        → system.getschedparam s ≡ r
        → (elim r [
          | none ↦ none
          | some (policy, n) ↦ some (if is_realtime policy then level n else normal)
        ])
          ≡ some q
        → some q ≡ some (if is_realtime s.policy then level s.priority else normal)
    go none e k = cc
    go (some r) e k =
        sym k
        ∙ ap (λ r. some (if is_realtime (r.0) then level (r.1) else normal)) (laws.reads s r e)

-- SetPriority(priority) leaves the policy of the current thread alone: GetPriority then reads what
-- was set on a thread with a real-time policy, and NORMAL on any other. The calls of the system
-- succeed, and do what they document.
pub set_priority-get_priority :
    (system : System) (laws : SystemLaws system) (p q : ThreadPriority) (s t : Sched)
    → set_priority system p s ≡ some t
    → get_priority system t ≡ some q
    → q ≡ (if is_realtime s.policy then p else normal)
unfolding set_priority
set_priority-get_priority system laws p q s t set got =
    let same : some q ≡ some (if is_realtime s.policy then level (sched_priority p) else normal) =
      read_back system laws t q got
      ∙ ap (λ u. some (if is_realtime (u.policy) then level u.priority else normal))
          (laws.sets_param (sched_priority p) s t set) in
    let there : some q ≡ some (if is_realtime s.policy then p else normal) =
      same ∙ ap (λ r. some (if is_realtime s.policy then r else normal)) (level-sched_priority p) in
    cc
