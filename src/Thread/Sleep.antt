-- ===== src/Thread/Sleep.antt =====
-- Thread::SleepFor (source/server/thread.cpp), over the ways in which nanosleep() ends.
use kernel_udp_tcp.Prelude.{
  ℕ, ◌+◌, ◌-◌, ◌*◌, ◌%◌, ◌^◌, ◌≤◌, ◌<◌, ◌≡◌, sym, ◌∙◌, subst, true, false, List, [], ◌∷◌, All,
  if◌then◌else◌, if-false, arith,
}
use kernel_udp_tcp.Time.{Timespan, less_timespan, equal_timespan, seconds}

-- struct timespec, of a time that is not negative.
pub record Timespec : Type 0 where
  pub tv_sec : ℕ
  pub tv_nsec : ℕ

-- How a call of nanosleep() ends: after the whole time, by a signal with the time that remains, or
-- with another error.
pub data Ending : Type 0 where
  slept refused : Ending
  interrupted : Timespec → Ending

pub data Call : Type 0 where
  yields : Call
  sleeps : Timespec → Ending → Call

-- The loop: the calls it makes, when nanosleep() ends as in the list; at its end the thread is still
-- asleep.
unfoldable sleep_loop : Timespec → List Ending → List Call
sleep_loop req [] = []
sleep_loop req (slept ∷ rest) = sleeps req slept ∷ []
sleep_loop req (refused ∷ rest) = sleeps req refused ∷ []
sleep_loop req (interrupted rem ∷ rest) = sleeps req (interrupted rem) ∷ sleep_loop rem rest

abbrev pub request : Timespan → Timespec
request t = record { tv_sec = seconds t; tv_nsec = t.duration % 1000000000 }

unfoldable pub sleep_for : Timespan → List Ending → List Call
unfolding sleep_loop less_timespan equal_timespan
sleep_for t endings =
    if less_timespan t (record { duration = 0 })
    then []
    else if equal_timespan t (record { duration = 0 })
    then yields ∷ []
    else sleep_loop (request t) endings

abbrev nanos : Timespec → ℕ
nanos t = t.tv_sec * 1000000000 + t.tv_nsec

-- What nanosleep() documents: a remaining time is a valid one, and no longer than the request. A
-- sequence of calls of which the last one sleeps to its end.
abbrev Sleeps : Timespec → List Ending → Type 0
Sleeps req [] = true ≡ false
Sleeps req (slept ∷ rest) = Unit
Sleeps req (refused ∷ rest) = true ≡ false
Sleeps req (interrupted rem ∷ rest) =
    (nanos rem ≤ nanos req) × (rem.tv_nsec < 1000000000) × Sleeps rem rest

-- The time that a sequence of calls sleeps.
abbrev pub time_slept : List Call → ℕ
time_slept [] = 0
time_slept (yields ∷ rest) = time_slept rest
time_slept (sleeps req slept ∷ rest) = nanos req + time_slept rest
time_slept (sleeps req refused ∷ rest) = time_slept rest
time_slept (sleeps req (interrupted rem) ∷ rest) = (nanos req - nanos rem) + time_slept rest

-- A request that nanosleep() accepts, of at most n nanoseconds.
abbrev pub Valid : ℕ → Call → Type 0
Valid n yields = Unit
Valid n (sleeps req e) = (req.tv_nsec < 1000000000) × (nanos req ≤ n)

Valid-more : (n m : ℕ) (calls : List Call) → n ≤ m → All (Valid n) calls → All (Valid m) calls
Valid-more n m [] h v = tt
Valid-more n m (yields ∷ rest) h v = (tt, Valid-more n m rest h v.1)
Valid-more n m (sleeps req e ∷ rest) h v =
    ((v.0.0, omega (arith, h, v.0.1)), Valid-more n m rest h v.1)

sleep_loop_lem :
    (req : Timespec) (endings : List Ending)
    → req.tv_nsec < 1000000000
    → Sleeps req endings
    → (time_slept (sleep_loop req endings) ≡ nanos req)
      × All (Valid (nanos req)) (sleep_loop req endings)
unfolding sleep_loop
sleep_loop_lem req [] valid h = absurd (cc h)
sleep_loop_lem req (slept ∷ rest) valid h = (omega arith, ((valid, omega arith), tt))
sleep_loop_lem req (refused ∷ rest) valid h = absurd (cc h)
sleep_loop_lem req (interrupted rem ∷ rest) valid (shorter, good, later) =
    let ih = sleep_loop_lem rem rest good later in
    (
      omega (arith, ih.0, shorter),
      ((valid, omega arith), Valid-more (nanos rem) (nanos req) _ shorter ih.1),
    )

-- SleepFor of a positive timespan sleeps exactly that long in all, however often signals interrupt
-- it, with valid requests that are no longer than the timespan. Asked of nanosleep() is that a
-- remaining time is valid and no longer than the request, and that the last call sleeps to its end.
pub sleep_for_lem :
    (t : Timespan) (endings : List Ending)
    → 0 < t.duration
    → t.duration < 2 ^ 63
    → Sleeps (request t) endings
    → (time_slept (sleep_for t endings) ≡ t.duration) × All (Valid t.duration) (sleep_for t endings)
unfolding sleep_for seconds less_timespan equal_timespan
sleep_for_lem t endings some fits h =
    subst (λ n. (time_slept (sleep_for t endings) ≡ n) × All (Valid n) (sleep_for t endings)) whole
      (subst
        (λ calls. (time_slept calls ≡ nanos (request t)) × All (Valid (nanos (request t))) calls)
        (sym run) (sleep_loop_lem (request t) endings (omega arith) h))
  where
    whole : nanos (request t) ≡ t.duration
    whole = ground arith

    run : sleep_for t endings ≡ sleep_loop (request t) endings
    run =
        if-false {b = less_timespan t (record { duration = 0 })} _ _ (ground arith)
        ∙ if-false {b = equal_timespan t (record { duration = 0 })} _ _ (ground arith)
