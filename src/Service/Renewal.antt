-- ===== src/Service/Renewal.antt =====
-- Restart of a Service that serves, when its threads run the handlers and leave their loops.
use native.Mathlib.Nat.{zero-mod}
use kernel_udp_tcp.Prelude.{
  ℕ, zero, suc, ◌+◌, ◌%◌, ◌==◌, ◌≡◌, refl, ap, ◌∙◌, Bool, true, false, ◌&&◌, some, List, [], ◌∷◌,
  ◌++◌, replicate, set, arith, if-true,
}
use kernel_udp_tcp.Service.{Service, Callback, stop_handler, on_started, on_stopped}
use kernel_udp_tcp.Service.Lifecycle.{
  Move, runs, leaves, may_leave, act, run_one, run_task, run_start, run_stop, await, none_running,
  start, stop, restart, renews, renewed, joined, succeeds, requested, post,
}
use kernel_udp_tcp.Service.Await.{await_now, await_later}
use kernel_udp_tcp.Service.Reach.{Steps, restart-Steps}

-- The threads leave, the last first.
abbrev pub leave_all : ℕ → List Move
leave_all zero = []
leave_all (suc n) = leaves n ∷ leave_all n

set_last :
    (n : ℕ) (l : List Bool)
    → set (replicate (suc n) true ++ l) n false ≡ replicate n true ++ (false ∷ l)
set_last zero l = refl
set_last (suc n) l = ap (◌∷◌ true) (set_last n l)

none_running-replicate : (n : ℕ) → none_running (replicate n false) ≡ true
none_running-replicate zero = refl
none_running-replicate (suc n) = none_running-replicate n

-- On stopped io_services each thread that leaves is gone, and the wait ends with the last.
await_leaves :
    (n m : ℕ) (s : Service) (more : List Move)
    → s.stopped ≡ true
    → await
        (λ t. none_running t.running)
        (leave_all n ++ more)
        (record s { running = replicate n true ++ replicate m false })
      ≡ some (record s { running = replicate (n + m) false }, more)
unfolding act
await_leaves zero m s more down =
    await_now (λ t. none_running t.running) more (record s { running = replicate m false })
      (none_running-replicate m)
    ∙ ap (λ k. some (record s { running = replicate k false }, more)) (omega arith)
await_leaves (suc n) m s more down =
    await_later (λ t. none_running t.running) (leaves n) (leave_all n ++ more)
      (record s { running = replicate (suc n) true ++ replicate m false })
      (record s { running = replicate n true ++ replicate (suc m) false }) refl
      (if-true
          {b = may_leave n (record s { running = replicate (suc n) true ++ replicate m false })} _
          (record s { running = replicate (suc n) true ++ replicate m false })
          (ground (arith, down))
        ∙ ap (λ l. record s { running = l }) (set_last n (replicate m false)))
    ∙ await_leaves n (suc m) s more down
    ∙ ap (λ k. some (record s { running = replicate k false }, more)) (omega arith)

module _ (services n : ℕ) (strand_required polling : Bool) where
  -- A service that serves on n + 1 threads, with nothing posted.
  abbrev pub up : ℕ → List Callback → Service
  up index calls = record {
    services = services;
    threads = suc n;
    strand_required = strand_required;
    polling = polling;
    started = true;
    round_robin_index = index;
    stopped = false;
    posted = [];
    running = replicate (suc n) true;
    calls = calls;
  }

  -- The same once Stop has returned.
  abbrev down : ℕ → List Callback → Service
  down index calls = record (up index calls) {
    polling = false;
    started = false;
    stopped = true;
    running = replicate (suc n) false;
    calls = on_stopped ∷ calls;
  }

  first_serves : (true && 0 % services == 0) ≡ true
  first_serves = ground (arith, zero-mod services)

  stop-down :
      (index : ℕ) (calls : List Callback) (more : List Move)
      → stop (runs 0 ∷ (leave_all (suc n) ++ more)) (up index calls)
        ≡ some (true, down index calls, more)
  unfolding stop act run_one run_task run_stop
  stop-down index calls more =
      ap joined (
        await_later (λ t. none_running t.running) (runs 0) (leave_all (suc n) ++ more)
          (post stop_handler (up index calls))
          (record (down index calls) {
            polling = polling;
            running = replicate (suc n) true ++ replicate 0 false;
          })
          refl (if-true _ _ first_serves ∙ ap alive (append_nil (replicate (suc n) true)))
        ∙ await_leaves (suc n) 0 (record (down index calls) { polling = polling }) more refl
        ∙ ap
            (λ k.
              some (
                record (down index calls) { polling = polling; running = replicate k false },
                more,
              ))
            {x = suc n + 0} {y = suc n} (omega arith))
      ∙ ap succeeds (await_now _ more (down index calls) refl)
    where
      alive : List Bool → Service
      alive l = record (down index calls) { polling = polling; running = l }

      append_nil : (l : List Bool) → l ≡ l ++ []
      append_nil [] = refl
      append_nil (b ∷ l) = ap (◌∷◌ b) (append_nil l)

  start-up :
      (index : ℕ) (calls : List Callback) (more : List Move)
      → start polling (runs 0 ∷ more) (renewed (down index calls))
        ≡ some (true, up 0 (on_started ∷ on_stopped ∷ calls), more)
  unfolding start act run_one run_task run_start
  start-up index calls more = ap succeeds (
      await_later (λ t. t.started) (runs 0) more (requested polling (renewed (down index calls)))
        (up 0 (on_started ∷ on_stopped ∷ calls)) refl
        (if-true (up 0 (on_started ∷ on_stopped ∷ calls))
          (requested polling (renewed (down index calls))) first_serves)
      ∙ await_now (λ t. t.started) more (up 0 (on_started ∷ on_stopped ∷ calls)) refl)

  -- Restart of a service that serves with nothing posted comes back with true: once the first thread
  -- has run the stop handler and all threads have left, it starts again on fresh io_services, and
  -- when the first thread has run the start handler the service serves as before, with its mode of
  -- polling, all its threads and an index of 0, having called onStopped and onStarted. It has got
  -- there in steps of Stop, of Start and of the threads. The threads make those moves, in that order.
  pub restart_renews :
      (index : ℕ) (calls : List Callback) (more : List Move)
      → (restart (runs 0 ∷ (leave_all (suc n) ++ (runs 0 ∷ more))) (up index calls)
          ≡ some (true, up 0 (on_started ∷ on_stopped ∷ calls), more))
        × Steps (up index calls) (up 0 (on_started ∷ on_stopped ∷ calls))
  unfolding restart
  restart_renews index calls more =
      let e : restart (runs 0 ∷ (leave_all (suc n) ++ (runs 0 ∷ more))) (up index calls)
          ≡ some (true, up 0 (on_started ∷ on_stopped ∷ calls), more) =
        ap (renews polling) (stop-down index calls (runs 0 ∷ more)) ∙ start-up index calls more in
      (
        e,
        (restart-Steps (runs 0 ∷ (leave_all (suc n) ++ (runs 0 ∷ more))) (up index calls)
            (up 0 (on_started ∷ on_stopped ∷ calls)) true more e).0,
      )
