-- ===== src/Service/Poll.antt =====
-- A polling thread that is ahead of the start handler.
use native.Mathlib.Nat.{mod-eq_of_lt, zero-mod}
use kernel_udp_tcp.Service.Await.{await_now, await_later}
use kernel_udp_tcp.Prelude.{
  ℕ, zero, suc, ◌^◌, ◌<◌, ◌≤◌, ◌%◌, ◌≡◌, refl, ap, ◌∙◌, true, false, some, List, [], ◌∷◌, replicate,
  ◌==◌, arith, if-true, if-false, lt→ltb,
}
use kernel_udp_tcp.Service.{Service, on_started, of_threads, made, rounds_of}
use kernel_udp_tcp.Service.Lifecycle.{
  run_start, run_task, run_one, Move, runs, leaves, is_running, may_leave, act, await, requested,
  succeeds, start,
}

-- A service of two threads or more, each with its own io_service, after Start has posted the
-- handler; after the second thread has left; and after the first has run the handler.
abbrev asked : ℕ → Service
asked n = requested true (made (suc (suc n)) (suc (suc n)) false)

abbrev left : ℕ → Service
left n = record (asked n) { running = true ∷ false ∷ replicate n true }

abbrev going : ℕ → Service
going n = record (left n) { posted = []; started = true; calls = on_started ∷ [] }

act_leaves : (n : ℕ) → act (leaves 1) (asked n) ≡ left n
unfolding act
act_leaves n = if-true {b = may_leave 1 (asked n)} _ _ (ground (arith, other))
  where
    other : 1 % suc (suc n) ≡ 1
    other = mod-eq_of_lt (omega arith)

act_runs : (n : ℕ) → act (runs 0) (left n) ≡ going n
unfolding act run_one run_task run_start
act_runs n = if-true {b = 0 % suc (suc n) == 0} _ _ (ground (arith, zero-mod (suc (suc n))))

-- Start with polling of a new service of two threads or more, each with its own io_service: if the
-- second thread polls before the first has run the start handler, it leaves its loop, and Start comes
-- back with true on a started service whose second thread has ended.
pub polling_thread_lost :
    (threads : ℕ) (rest : List Move)
    → 2 ≤ threads
    → threads < 2 ^ 31
    → (u : Service) × (start true (leaves 1 ∷ runs 0 ∷ rest) (of_threads threads false)
        ≡ some (true, u, rest))
      × (u.started ≡ true)
      × (is_running 1 u ≡ false)
unfolding of_threads start
polling_thread_lost (suc (suc n)) rest enough below = (going n, proof, refl, refl)
  where
    own :
        of_threads (suc (suc n)) false
        ≡ made (rounds_of (suc (suc n))) (rounds_of (suc (suc n))) false
    own = if-false {b = suc (suc n) == 0} _ _ (ground arith)

    rounds : rounds_of (suc (suc n)) ≡ suc (suc n)
    rounds = if-true _ _ (lt→ltb (suc (suc n)) (2 ^ 31) below)

    waits : await (λ t. t.started) (leaves 1 ∷ runs 0 ∷ rest) (asked n) ≡ some (going n, rest)
    waits =
        await_later (λ t. t.started) (leaves 1) (runs 0 ∷ rest) (asked n) (left n) refl
          (act_leaves n)
        ∙ await_later (λ t. t.started) (runs 0) rest (left n) (going n) refl (act_runs n)
        ∙ await_now (λ t. t.started) rest (going n) refl

    proof :
        start true (leaves 1 ∷ runs 0 ∷ rest) (of_threads (suc (suc n)) false)
        ≡ some (true, going n, rest)
    proof =
        ap (start true (leaves 1 ∷ runs 0 ∷ rest)) (own ∙ ap (λ k. made k k false) rounds)
        ∙ ap succeeds waits
polling_thread_lost zero rest enough below = absurd (omega arith)
polling_thread_lost (suc zero) rest enough below = absurd (omega arith)
