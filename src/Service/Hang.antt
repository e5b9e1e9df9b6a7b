-- ===== src/Service/Hang.antt =====
-- When Start and Stop of Service never come back.
use kernel_udp_tcp.Prelude.{
  ℕ, ◌≡◌, refl, ap, sym, subst, ◌∙◌, ◌||◌, zero, suc, arith, Bool, true, false, not, ◌&&◌, none,
  some, List, [], ◌∷◌, set, get_or, ◌==◌, ◌%◌, if◌then◌else◌, if-true, if-false, if-not, Bool-cases,
  inl, inr,
}
use kernel_udp_tcp.Service.{Service, Task, start_handler, stop_handler, handler}
use kernel_udp_tcp.Service.Lifecycle.{
  run_start, run_stop, run_task, run_one, Move, runs, leaves, dies, outside, is_running, may_leave,
  act, post, requested, succeeds, start, none_running, joined, stop,
}
use kernel_udp_tcp.Service.Await.{outcome_inj, await-none, await_now, await_keeps, joined_keeps}

-- Not started, on stopped io_services.
abbrev Stopped : Service → Type 0
Stopped s = (s.started ≡ false) × (s.stopped ≡ true)

ends-Stopped :
    (b : Bool) (s : Service) (running : List Bool)
    → Stopped s
    → Stopped (if b then record s { running = running } else s)
ends-Stopped true s running h = h
ends-Stopped false s running h = h

run_one-Stopped : (b : Bool) (s : Service) → Stopped s → Stopped (if b then run_one s else s)
unfolding run_one
run_one-Stopped true s h = subst Stopped (sym (if-true _ _ h.1)) h
run_one-Stopped false s h = h

act-Stopped : (m : Move) (s : Service) → Stopped s → Stopped (act m s)
unfolding act
act-Stopped (runs i) s h = run_one-Stopped _ s h
act-Stopped (leaves i) s h = ends-Stopped _ s _ h
act-Stopped (dies i) s h = h
act-Stopped outside s h = run_one-Stopped _ s h

start_hangs :
    (polling : Bool) (ms : List Move) (s : Service) → Stopped s → start polling ms s ≡ none
unfolding start
start_hangs polling ms s h =
    if-false _ _ h.0
    ∙ ap succeeds
        (await-none Stopped (λ t. t.started) (λ t h. h.0) act-Stopped ms (requested polling s) h)

-- Started, or on stopped io_services.
record Used (s : Service) : Type 0 where
  used : (s.started || s.stopped) ≡ true

run_task-Used : (t : Task) (s : Service) → Used s → Used (run_task t s)
unfolding run_task run_start run_stop
run_task-Used start_handler s h = ground arith
run_task-Used stop_handler s h = ground arith
run_task-Used (handler n) s h = h

run_one-Used : (s : Service) → Used s → Used (run_one s)
unfolding run_one
run_one-Used s h = go s.stopped s.posted
  where
    go :
        (b : Bool) (l : List Task)
        → Used (
            if b then s else elim l [ [] ↦ s | t ∷ rest ↦ run_task t (record s { posted = rest }) ])
    go true l = h
    go false [] = h
    go false (t ∷ rest) = run_task-Used t (record s { posted = rest }) (ground arith)

if-Used : (b : Bool) (s t : Service) → Used s → Used t → Used (if b then t else s)
if-Used true s t h k = k
if-Used false s t h k = h

act-Used : (m : Move) (s : Service) → Used s → Used (act m s)
unfolding act
act-Used (runs i) s h = if-Used _ s (run_one s) h (run_one-Used s h)
act-Used (leaves i) s h =
    if-Used _ s (record s { running = set s.running i false }) h (ground arith)
act-Used (dies i) s h = ground arith
act-Used outside s h = if-Used _ s (run_one s) h (run_one-Used s h)

stop-Stopped :
    (ms : List Move) (s u : Service) (rest : List Move)
    → stop ms s ≡ some (true, u, rest)
    → Stopped u
unfolding stop
stop-Stopped ms s u rest e = elim (Bool-cases s.started) [
  | inl up ↦
      let met =
        joined_keeps Used act-Used (λ v k. ground arith) _ u true rest
          (λ v left k.
            (await_keeps Used act-Used (λ w. none_running w.running) ms (post stop_handler s) v left
              (ground arith) k).0)
          (sym (if-not _ _ up) ∙ e) in
      ground arith
  | inr down ↦ absurd (cc (outcome_inj (sym (if-true _ _ (ap not down)) ∙ e)).0)
]

-- Once Stop has come back with true, Start waits for ever, whatever the threads do: the io_services
-- stay stopped.
pub stop-start_hangs :
    (ms more : List Move) (polling : Bool) (s u : Service) (rest : List Move)
    → stop ms s ≡ some (true, u, rest)
    → start polling more u ≡ none
stop-start_hangs ms more polling s u rest e =
    start_hangs polling more u (stop-Stopped ms s u rest e)

-- Started, and every thread has ended.
abbrev Dead : Service → Type 0
Dead s = (s.started ≡ true) × (none_running s.running ≡ true) × ((s.threads == 0) ≡ false)

none_running-get_or : (l : List Bool) (i : ℕ) → none_running l ≡ true → get_or l i false ≡ false
none_running-get_or [] i h = refl
none_running-get_or (true ∷ l) i h = absurd (cc h)
none_running-get_or (false ∷ l) zero h = refl
none_running-get_or (false ∷ l) (suc i) h = none_running-get_or l i h

none_running-set :
    (l : List Bool) (i : ℕ) → none_running l ≡ true → none_running (set l i false) ≡ true
none_running-set [] i h = refl
none_running-set (true ∷ l) i h = absurd (cc h)
none_running-set (false ∷ l) zero h = h
none_running-set (false ∷ l) (suc i) h = none_running-set l i h

act-Dead : (m : Move) (s : Service) → Dead s → Dead (act m s)
unfolding act
act-Dead (runs i) s h =
    subst Dead
      (sym (
        if-false {b = is_running i s && i % s.services == 0} _ _
          (ground (arith, none_running-get_or s.running i h.1))))
      h
act-Dead (leaves i) s h = elim (Bool-cases (may_leave i s)) [
  | inl can ↦ subst Dead (sym (if-true _ _ can)) (h.0, none_running-set s.running i h.1, h.2)
  | inr cannot ↦ subst Dead (sym (if-false _ _ cannot)) h
]
act-Dead (dies i) s h = (h.0, none_running-set s.running i h.1, h.2)
act-Dead outside s h = subst Dead (sym (if-false _ _ h.2)) h

-- Stop of a started service that has threads, all of which an error has ended, waits for ever.
pub stop_hangs :
    (ms : List Move) (s : Service)
    → s.started ≡ true
    → none_running s.running ≡ true
    → (s.threads == 0) ≡ false
    → stop ms s ≡ none
unfolding stop
stop_hangs ms s up ended some_threads =
    if-not _ _ up
    ∙ ap joined (await_now (λ t. none_running t.running) ms (post stop_handler s) ended)
    ∙ ap succeeds (
        await-none Dead (λ u. not u.started) (λ u h. ap not h.0) act-Dead ms _
          (up, ended, some_threads))
