-- ===== src/Service/Reach.antt =====
-- What holds of a Service whatever is called and whatever its threads do.
use kernel_udp_tcp.Prelude.{
  ℕ, ◌^◌, ◌<◌, ◌≡◌, refl, ap, sym, subst, ◌∙◌, if-true, if-false, if-not, Bool, true, false, not,
  ◌&&◌, Option, none, some, List, [], ◌∷◌, length, set, ◌==◌, arith, length-set, length-replicate,
  if◌then◌else◌, Bool-cases, inl, inr,
}
use kernel_udp_tcp.Service.{
  Service, Task, start_handler, stop_handler, handler, Callback, on_started, on_stopped, of_threads,
  made, get_asio_service, rounds_of,
}
use kernel_udp_tcp.Service.Lifecycle.{
  run_start, run_stop, run_task, run_one, Move, runs, leaves, dies, outside, act, post, requested,
  Outcome, start, none_running, stop, renewed, renews, restart,
}
use kernel_udp_tcp.Service.Await.{outcome_inj, succeeds-some, await_keeps, joined_keeps}

-- The virtual calls, newest first: starts and stops alternate from a start. `some b` says whether
-- the service is started at the end.
abbrev move_call : Callback → Bool → Option Bool
move_call on_started false = some true
move_call on_stopped true = some false
move_call _ b = none

abbrev pub history : List Callback → Option Bool
history [] = some false
history (c ∷ rest) = elim (history rest) [ none ↦ none | some b ↦ move_call c b ]

-- The calls alternate, a started service's io_services are not stopped, there is an entry for each
-- thread, and the index is a size_t.
pub record Inv (s : Service) : Type 0 where
  pub protocol : history s.calls ≡ some s.started
  pub serving : (s.started && s.stopped) ≡ false
  pub threads : length s.running ≡ s.threads
  pub index : s.round_robin_index < 2 ^ 64

run_task-Inv : (t : Task) (s : Service) → Inv s → s.stopped ≡ false → Inv (run_task t s)
unfolding run_task run_start run_stop
run_task-Inv start_handler s h q = ground arith
run_task-Inv stop_handler s h q = ground arith
run_task-Inv (handler n) s h q = h

run_one-Inv : (s : Service) → Inv s → Inv (run_one s)
unfolding run_one
run_one-Inv s h = go s.stopped s.posted refl
  where
    go :
        (b : Bool) (l : List Task)
        → s.stopped ≡ b
        → Inv (
            if b then s else elim l [ [] ↦ s | t ∷ rest ↦ run_task t (record s { posted = rest }) ])
    go true l e = h
    go false [] e = h
    go false (t ∷ rest) e = run_task-Inv t (record s { posted = rest }) (ground arith) e

-- A step under a test.
if-Inv : (b : Bool) (s t : Service) → Inv s → Inv t → Inv (if b then t else s)
if-Inv true s t h k = k
if-Inv false s t h k = h

act-Inv : (m : Move) (s : Service) → Inv s → Inv (act m s)
unfolding act
act-Inv (runs i) s h = if-Inv _ s (run_one s) h (run_one-Inv s h)
act-Inv (leaves i) s h =
    if-Inv _ s (record s { running = set s.running i false }) h
      (ground (arith, length-set s.running i false))
act-Inv (dies i) s h = ground (arith, length-set s.running i false)
act-Inv outside s h = if-Inv _ s (run_one s) h (run_one-Inv s h)

-- The service, in small steps: a move of a thread, what a method does before and after it waits, and
-- the calls that do not wait.
pub data Steps (s : Service) : Service → Type 0 where
  here : Steps s s
  moves : {t : Service} (m : Move) → Steps s t → Steps s (act m t)
  requests :
      {t : Service} (polling : Bool) → t.started ≡ false → Steps s t → Steps s (requested polling t)
  posts : {t : Service} (task : Task) → Steps s t → Steps s (post task t)
  joining : {t : Service} → Steps s t → Steps s (record t { polling = false })
  renewing : {t : Service} → Steps s t → Steps s (renewed t)
  hands_out : {t : Service} → Steps s t → Steps s (get_asio_service t).1

start-Steps :
    (polling : Bool) (ms : List Move) (s t u : Service) (r : Bool) (rest : List Move)
    → Steps s t
    → start polling ms t ≡ some (r, u, rest)
    → Steps s u × (u.started ≡ true) × (r ≡ not t.started)
unfolding start
start-Steps polling ms s t u r rest h e = elim (Bool-cases t.started) [
  | inl up ↦
      let same = outcome_inj (sym (if-true _ _ up) ∙ e) in
      (subst (λ v. Steps s v) same.1 h, ap (λ v. v.started) (sym same.1) ∙ up, ground arith)
  | inr down ↦
      let waited = succeeds-some _ r u rest (sym (if-false _ _ down) ∙ e) in
      let met =
        await_keeps (Steps s) (λ m v. moves m) (λ v. v.started) ms _ u rest
          (requests polling down h) waited.0 in
      (met.0, met.1, ground arith)
]

stop-Steps :
    (ms : List Move) (s t u : Service) (r : Bool) (rest : List Move)
    → Steps s t
    → stop ms t ≡ some (r, u, rest)
    → Steps s u × (not u.started ≡ true) × (r ≡ t.started)
unfolding stop
stop-Steps ms s t u r rest h e = elim (Bool-cases t.started) [
  | inl up ↦
      let met =
        joined_keeps (Steps s) (λ m v. moves m) (λ v. joining) _ u r rest
          (λ v left k.
            (await_keeps (Steps s) (λ m w. moves m) (λ w. none_running w.running) ms _ v left
              (posts stop_handler h) k).0)
          (sym (if-not _ _ up) ∙ e) in
      (met.0, met.1, met.2 ∙ sym up)
  | inr down ↦
      let same = outcome_inj (sym (if-true _ _ (ap not down)) ∙ e) in
      (
        subst (λ v. Steps s v) same.1 h,
        ap (λ v. not v.started) (sym same.1) ∙ ap not down,
        sym same.0 ∙ sym down,
      )
]

renews-Steps :
    (polling : Bool) (o : Outcome) (t u : Service) (r : Bool) (rest : List Move)
    → ((q : Bool) (v : Service) (left : List Move)
        → o ≡ some (q, v, left)
        → Steps t v × (not v.started ≡ true) × (q ≡ t.started))
    → renews polling o ≡ some (r, u, rest)
    → Steps t u × (u.started ≡ r) × (r ≡ t.started)
renews-Steps polling none t u r rest h e = absurd (cc e)
renews-Steps polling (some (true, v, left)) t u r rest h e =
    let down = h true v left refl in
    let up = start-Steps polling left t (renewed v) u r rest (renewing down.0) e in
    (up.0, up.1 ∙ sym (up.2 ∙ down.1), up.2 ∙ down.1 ∙ down.2)
renews-Steps polling (some (false, v, left)) t u r rest h e =
    let down = h false v left refl in
    let same = outcome_inj e in
    (subst (λ w. Steps t w) same.1 down.0, ground arith, sym same.0 ∙ down.2)

-- When Restart comes back, whatever the threads did meanwhile, it has got there in steps of Stop, of
-- Start and of the threads; it returns true exactly if the service was started, and the service is
-- then started or not as before.
pub restart-Steps :
    (ms : List Move) (t u : Service) (r : Bool) (rest : List Move)
    → restart ms t ≡ some (r, u, rest)
    → Steps t u × (u.started ≡ r) × (r ≡ t.started)
unfolding restart
restart-Steps ms t u r rest e =
    renews-Steps t.polling (stop ms t) t u r rest (λ q v left k. stop-Steps ms t t v q left here k)
      e

Steps-Inv : {s t : Service} → Steps s t → Inv s → Inv t
unfolding get_asio_service
Steps-Inv here h = h
Steps-Inv (moves m r) h = act-Inv m _ (Steps-Inv r h)
Steps-Inv (requests {t = t} polling off r) h =
    let k = Steps-Inv r h in ground (arith, length-replicate t.threads true)
Steps-Inv (posts task r) h = let k = Steps-Inv r h in ground arith
Steps-Inv (joining r) h = let k = Steps-Inv r h in ground arith
Steps-Inv (renewing r) h = let k = Steps-Inv r h in ground arith
Steps-Inv (hands_out r) h = let k = Steps-Inv r h in ground arith

made-Inv :
    (services threads : ℕ) (strand_required : Bool) → Inv (made services threads strand_required)
made-Inv services threads strand_required = record {
  protocol = refl;
  serving = refl;
  threads = length-replicate threads false;
  index = omega arith;
}

-- After any calls of Start, Stop, Restart, Post and GetAsioService, as far as they have got, and any
-- moves of the threads, a service made of a number of threads has called onStarted and onStopped in
-- turns, from onStarted on, and is started exactly if the last of them was onStarted; the
-- io_services of a started service are not stopped; the index is below 2 ^ 64.
pub Steps-of_threads :
    (threads : ℕ) (pool : Bool) (s : Service)
    → Steps (of_threads threads pool) s
    → (history s.calls ≡ some s.started)
      × ((s.started && s.stopped) ≡ false)
      × (length s.running ≡ s.threads)
      × (s.round_robin_index < 2 ^ 64)
unfolding of_threads
Steps-of_threads threads pool s h =
    let first =
      if-Inv (threads == 0) _ _
        (if-Inv (not pool) _ _ (made-Inv 1 (rounds_of threads) true)
          (made-Inv (rounds_of threads) (rounds_of threads) false))
        (made-Inv 1 0 false) in
    let k = Steps-Inv h first in (k.protocol, k.serving, k.threads, k.index)
