-- ===== src/Service/Single.antt =====
-- A service of one thread: what Start leaves of it, and Stop when the thread has ended.
use kernel_udp_tcp.Prelude.{
  ℕ, zero, suc, ◌≡◌, refl, ap, ◌∙◌, Bool, true, false, none, some, List, [], ◌∷◌, ◌==◌, length,
  length-set, set, get_or, arith, if◌then◌else◌,
}
use kernel_udp_tcp.Service.{Service, of_threads, made, Task, start_handler, stop_handler, handler}
use kernel_udp_tcp.Service.Lifecycle
use kernel_udp_tcp.Service.Lifecycle.{
  Move, runs, leaves, dies, outside, act, is_running, none_running, run_one, await, requested,
  succeeds,
}
use kernel_udp_tcp.Service.Await.{succeeds-some, await_keeps}
use kernel_udp_tcp.Service.Hang.{stop_hangs}

-- Started, with one thread, inside ServiceThread or not.
pub record Single (s : Service) : Type 0 where
  pub one : s.threads ≡ 1
  pub listed : length s.running ≡ 1

ends-Single :
    (b : Bool) (s : Service) (i : ℕ)
    → Single s
    → Single (if b then record s { running = set s.running i false } else s)
ends-Single true s i h = record { one = h.one; listed = length-set s.running i false ∙ h.listed }
ends-Single false s i h = h

run_task-Single : (t : Task) (s : Service) → Single s → Single (Lifecycle.run_task t s)
unfolding Lifecycle.run_task Lifecycle.run_start Lifecycle.run_stop
run_task-Single start_handler s h = ground arith
run_task-Single stop_handler s h = ground arith
run_task-Single (handler n) s h = h

run_one-Single : (b : Bool) (s : Service) → Single s → Single (if b then run_one s else s)
unfolding run_one
run_one-Single true s h = go s.stopped s.posted
  where
    go :
        (b : Bool) (l : List Task)
        → Single (
            if b
            then s
            else elim l [ [] ↦ s | t ∷ rest ↦ Lifecycle.run_task t (record s { posted = rest }) ])
    go true l = h
    go false [] = h
    go false (t ∷ rest) = run_task-Single t (record s { posted = rest }) (ground arith)
run_one-Single false s h = h

pub act-Single : (m : Move) (s : Service) → Single s → Single (act m s)
unfolding act
act-Single (runs i) s h = run_one-Single _ s h
act-Single (leaves i) s h = ends-Single _ s i h
act-Single (dies i) s h = ends-Single true s i h
act-Single outside s h = run_one-Single _ s h

-- What Start leaves when it comes back: a started service of one thread.
pub start-Single :
    (moves : List Move) (r : Bool) (t : Service) (rest : List Move)
    → Lifecycle.start false moves (of_threads 1 false) ≡ some (r, t, rest)
    → Single t × (t.started ≡ true)
unfolding Lifecycle.start of_threads
start-Single moves r t rest e =
    await_keeps Single act-Single (λ s. s.started) moves (requested false (made 1 1 false)) t rest
      (record { one = refl; listed = refl }) (succeeds-some _ r t rest e).0

-- A list of one with its place set to false, or false already.
none_running-one : (l : List Bool) → length l ≡ 1 → get_or l 0 false ≡ false → none_running l ≡ true
none_running-one [] h k = refl
none_running-one (true ∷ l) h k = absurd (cc k)
none_running-one (false ∷ []) h k = refl
none_running-one (false ∷ b ∷ l) h k = absurd (omega arith)

pub get_or-set : (l : List Bool) (i : ℕ) → get_or (set l i false) i false ≡ false
get_or-set [] i = refl
get_or-set (b ∷ l) zero = refl
get_or-set (b ∷ l) (suc i) = get_or-set l i

-- A started service whose one thread has ended does not stop.
pub over_hangs :
    (moves : List Move) (s : Service)
    → Single s
    → s.started ≡ true
    → is_running 0 s ≡ false
    → Lifecycle.stop moves s ≡ none
over_hangs moves s h up over =
    stop_hangs moves s up (none_running-one s.running h.listed over) (ap (λ n. n == 0) h.one)
