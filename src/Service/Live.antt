-- ===== src/Service/Live.antt =====
-- When Start and Stop of Service come back.
use native.Mathlib.Nat.{zero-mod}
use kernel_udp_tcp.Prelude.{
  ℕ, zero, suc, ◌%◌, ◌<◌, ◌≤◌, ◌≡◌, refl, ap, sym, subst, ◌∙◌, Bool, true, false, not, ◌&&◌, some,
  List, [], ◌∷◌, ◌++◌, length, replicate, set, get_or, ◌==◌, arith, if◌then◌else◌, Bool-cases, ◌⊎◌,
  inl, inr, if-true, if-false, All,
}
use kernel_udp_tcp.Service.{Service, Task, start_handler, stop_handler, handler}
use kernel_udp_tcp.Service.Lifecycle.{
  run_start, run_stop, run_task, run_one, Move, runs, leaves, dies, outside, is_running,
  none_posted, may_leave, act, await, requested, succeeds, start,
}

-- How often the first thread takes a handler.
abbrev pub turns : List Move → ℕ
turns [] = 0
turns (runs zero ∷ rest) = suc (turns rest)
turns (_ ∷ rest) = turns rest

-- No error ends the first thread.
abbrev survives : Move → Bool
survives (dies zero) = false
survives _ = true

-- A start handler is among the first n.
abbrev among : ℕ → List Task → Bool
among zero l = false
among (suc n) [] = false
among (suc n) (start_handler ∷ rest) = true
among (suc n) (stop_handler ∷ rest) = among n rest
among (suc n) (handler k ∷ rest) = among n rest

among-suc : (n : ℕ) (l : List Task) → among n l ≡ true → among (suc n) l ≡ true
among-suc (suc n) (start_handler ∷ rest) h = refl
among-suc (suc n) (stop_handler ∷ rest) h = among-suc n rest h
among-suc (suc n) (handler k ∷ rest) h = among-suc n rest h
among-suc (suc n) [] h = h
among-suc zero l h = absurd (cc h)

among-append : (l : List Task) → among (suc (length l)) (l ++ start_handler ∷ []) ≡ true
among-append [] = refl
among-append (start_handler ∷ rest) = refl
among-append (stop_handler ∷ rest) = among-append rest
among-append (handler k ∷ rest) = among-append rest

-- The first thread runs, on io_services that are not stopped, and takes a start handler before it
-- has taken n others.
record Waiting (n : ℕ) (s : Service) : Type 0 where
  serving : s.stopped ≡ false
  first : is_running 0 s ≡ true
  down : s.started ≡ false
  queued : among n s.posted ≡ true

abbrev Progress : ℕ → Service → Type 0
Progress n s = (s.started ≡ true) ⊎ Waiting n s

Waiting-suc : (n : ℕ) (s : Service) → Waiting n s → Waiting (suc n) s
Waiting-suc n s w = ground (arith, among-suc n s.posted w.queued)

Progress-suc : (n : ℕ) (s : Service) → Progress n s → Progress (suc n) s
Progress-suc n s (inl up) = inl up
Progress-suc n s (inr w) = inr (Waiting-suc n s w)

taken-Progress :
    (n : ℕ) (s : Service) (l : List Task)
    → Waiting (suc n) (record s { posted = l })
    → Progress n (elim l [ [] ↦ s | t ∷ rest ↦ run_task t (record s { posted = rest }) ])
unfolding run_task run_start run_stop
taken-Progress n s [] w = absurd (cc w.queued)
taken-Progress n s (start_handler ∷ rest) w =
    inl (ap (λ (t : Service). t.started) (if-false _ _ w.down))
taken-Progress n s (stop_handler ∷ rest) w = inr (
    subst (Waiting n) (sym (if-true _ _ (ap not w.down)))
      (record { serving = w.serving; first = w.first; down = w.down; queued = w.queued }))
taken-Progress n s (handler k ∷ rest) w =
    inr (record { serving = w.serving; first = w.first; down = w.down; queued = w.queued })

run_one-Progress : (n : ℕ) (s : Service) → Waiting (suc n) s → Progress n (run_one s)
unfolding run_one
run_one-Progress n s w =
    subst (Progress n) (sym (if-false _ _ w.serving)) (taken-Progress n s s.posted w)

-- Under a test, a handler may be run.
maybe-Progress :
    (n : ℕ) (b : Bool) (s : Service) → Waiting n s → Progress n (if b then run_one s else s)
maybe-Progress zero b s w = absurd (cc w.queued)
maybe-Progress (suc n) true s w = Progress-suc n (run_one s) (run_one-Progress n s w)
maybe-Progress (suc n) false s w = inr w

get_or-set :
    (l : List Bool) (i : ℕ) (v : Bool) → get_or (set l (suc i) v) 0 false ≡ get_or l 0 false
get_or-set [] i v = refl
get_or-set (x ∷ l) i v = refl

-- Another thread ends.
ended-Waiting :
    (n i : ℕ) (s : Service)
    → Waiting n s
    → Waiting n (record s { running = set s.running (suc i) false })
ended-Waiting n i s w = record {
  serving = w.serving;
  first = get_or-set s.running i false ∙ w.first;
  down = w.down;
  queued = w.queued;
}

none_posted-among : (n : ℕ) (l : List Task) → among n l ≡ true → none_posted l ≡ false
none_posted-among zero l h = absurd (cc h)
none_posted-among (suc n) [] h = absurd (cc h)
none_posted-among (suc n) (t ∷ rest) h = refl

-- Another move than a handler of the first thread.
act-Progress :
    (n : ℕ) (m : Move) (s : Service) → survives m ≡ true → Waiting n s → Progress n (act m s)
unfolding act
act-Progress n (runs i) s alive w = maybe-Progress n _ s w
act-Progress n (leaves zero) s alive w =
    subst (Progress n)
      (sym (
        if-false {b = may_leave 0 s} _ _
          (ground (arith, zero-mod s.services, none_posted-among n s.posted w.queued))))
      (inr w)
act-Progress n (leaves (suc i)) s alive w = elim (Bool-cases (may_leave (suc i) s)) [
  | inl can ↦ subst (Progress n) (sym (if-true _ _ can)) (inr (ended-Waiting n i s w))
  | inr cannot ↦ subst (Progress n) (sym (if-false _ _ cannot)) (inr w)
]
act-Progress n (dies zero) s alive w = absurd (cc alive)
act-Progress n (dies (suc i)) s alive w = inr (ended-Waiting n i s w)
act-Progress n outside s alive w = maybe-Progress n _ s w

act_first-Progress : (n : ℕ) (s : Service) → Waiting (suc n) s → Progress n (act (runs zero) s)
unfolding act
act_first-Progress n s w =
    subst (Progress n)
      (sym (
        if-true {b = is_running 0 s && 0 % s.services == 0} _ _
          (ground (arith, zero-mod s.services, w.first))))
      (run_one-Progress n s w)

-- A wait for IsStarted() that ends.
Arrives : List Move → Service → Type 0
Arrives ms s =
    (u : Service) × (rest : List Move) × (await (λ t. t.started) ms s ≡ some (u, rest))
    × (u.started ≡ true)

Arrives-now : (ms : List Move) (s : Service) → s.started ≡ true → Arrives ms s
unfolding Arrives await
Arrives-now [] s up = (s, [], if-true _ _ up, up)
Arrives-now (m ∷ ms) s up = (s, m ∷ ms, if-true _ _ up, up)

Arrives-later :
    (m : Move) (ms : List Move) (s : Service) → Arrives ms (act m s) → Arrives (m ∷ ms) s
unfolding Arrives await
Arrives-later m ms s h = elim (Bool-cases s.started) [
  | inl up ↦ Arrives-now (m ∷ ms) s up
  | inr down ↦ (h.0, h.1, if-false _ _ down ∙ h.2, h.3)
]

await-Arrives :
    (ms : List Move) (n : ℕ) (s : Service)
    → All (λ m. survives m ≡ true) ms
    → n ≤ turns ms
    → Progress n s
    → Arrives ms s
await-Arrives ms n s alive enough (inl up) = Arrives-now ms s up
await-Arrives ms zero s alive enough (inr w) = absurd (cc w.queued)
await-Arrives [] (suc n) s alive enough (inr w) = absurd (omega (arith, enough))
await-Arrives (runs zero ∷ ms) (suc n) s alive enough (inr w) =
    Arrives-later (runs zero) ms s
      (await-Arrives ms n _ alive.1 (omega arith) (act_first-Progress n s w))
await-Arrives (m ∷ ms) (suc n) s alive enough (inr w) =
    Arrives-later m ms s
      (await-Arrives ms (suc n) _ alive.1 enough (act-Progress (suc n) m s alive.0 w))

-- Start comes back with true, and the service is then started: when the service is not started, its
-- io_services are not stopped, it has a thread, no error ends the first thread, and that thread
-- takes more handlers than were posted before.
pub start_comes_back :
    (polling : Bool) (ms : List Move) (s : Service) (threads : ℕ)
    → s.started ≡ false
    → s.stopped ≡ false
    → s.threads ≡ suc threads
    → All (λ m. survives m ≡ true) ms
    → length s.posted < turns ms
    → (u : Service) × (rest : List Move) × (start polling ms s ≡ some (true, u, rest))
      × (u.started ≡ true)
unfolding start Arrives
start_comes_back polling ms s threads down serving has alive enough =
    let first : is_running 0 (requested polling s) ≡ true =
      ap (λ n. get_or (replicate n true) 0 false) has in
    let met = await-Arrives ms (suc (length s.posted)) (requested polling s) alive enough (
      inr (record {
        serving = serving;
        first = first;
        down = down;
        queued = among-append s.posted;
      })) in
    (met.0, met.1, if-false _ _ down ∙ ap succeeds met.2, met.3)
