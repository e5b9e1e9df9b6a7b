-- ===== src/Tests/Lifecycle.antt =====
-- Start, Stop and Restart of Service at concrete values.
use kernel_udp_tcp.Prelude.{
  ◌≡◌, ◌<◌, ◌^◌, ◌&&◌, refl, true, false, some, none, List, [], ◌∷◌, length, arith,
}
use kernel_udp_tcp.Service.{Service, of_threads, on_started, on_stopped, handler}
use kernel_udp_tcp.Service.Lifecycle.{
  run_start, run_stop, run_task, run_one, Move, runs, leaves, dies, outside, act, await, requested,
  start, stop, restart, is_running,
}
use kernel_udp_tcp.Service.Reach.{Steps, here, moves, requests, history, Steps-of_threads}
use kernel_udp_tcp.Service.Renewal.{up, restart_renews}
use kernel_udp_tcp.Service.Live.{start_comes_back}
use kernel_udp_tcp.Service.Hang.{stop-start_hangs}
use kernel_udp_tcp.Service.Poll.{polling_thread_lost}

-- Two threads on one io_service, started and with a strand.
abbrev pooled : Service
pooled = record {
  services = 1;
  threads = 2;
  strand_required = true;
  polling = false;
  started = true;
  round_robin_index = 5;
  stopped = false;
  posted = [];
  running = true ∷ true ∷ [];
  calls = on_started ∷ [];
}

abbrev resting : Service
resting = record pooled { started = false; posted = handler 7 ∷ []; calls = [] }

abbrev dead : Service
dead = record pooled { running = false ∷ false ∷ [] }

abbrev restarting : List Move
restarting = runs 1 ∷ leaves 0 ∷ leaves 1 ∷ runs 0 ∷ runs 1 ∷ []

abbrev stopped_service : Service
stopped_service = record pooled {
  polling = false;
  started = false;
  stopped = true;
  running = false ∷ false ∷ [];
  calls = on_stopped ∷ on_started ∷ [];
}

abbrev restarted : Service
restarted = record pooled {
  round_robin_index = 0;
  calls = on_started ∷ on_stopped ∷ on_started ∷ [];
}

stops : stop (runs 1 ∷ leaves 0 ∷ leaves 1 ∷ []) pooled ≡ some (true, stopped_service, [])
unfolding stop await act run_one run_task run_stop
stops = refl

restarts : restart restarting pooled ≡ some (true, restarted, runs 1 ∷ [])
unfolding restart stop start await act run_one run_task run_start run_stop
restarts = refl

restart_renews_example :
    (restart
        (runs 0 ∷ leaves 1 ∷ leaves 0 ∷ runs 0 ∷ outside ∷ [])
        (up 1 1 true false 5 (on_started ∷ []))
      ≡ some (true, up 1 1 true false 0 (on_started ∷ on_stopped ∷ on_started ∷ []), outside ∷ []))
    × Steps
        (up 1 1 true false 5 (on_started ∷ []))
        (up 1 1 true false 0 (on_started ∷ on_stopped ∷ on_started ∷ []))
restart_renews_example = restart_renews 1 1 true false 5 (on_started ∷ []) (outside ∷ [])

abbrev fresh_started : Service
fresh_started = act (runs 0) (requested true (of_threads 2 true))

Steps-of_threads_example :
    (history fresh_started.calls ≡ some fresh_started.started)
    × ((fresh_started.started && fresh_started.stopped) ≡ false)
    × (length fresh_started.running ≡ fresh_started.threads)
    × (fresh_started.round_robin_index < 2 ^ 64)
unfolding of_threads
Steps-of_threads_example =
    Steps-of_threads 2 true fresh_started (moves (runs 0) (requests true refl here))

start_comes_back_example :
    (u : Service) × (rest : List Move) × (start false
        (leaves 1 ∷ runs 0 ∷ dies 1 ∷ runs 0 ∷ [])
        resting
      ≡ some (true, u, rest))
    × (u.started ≡ true)
start_comes_back_example =
    start_comes_back false (leaves 1 ∷ runs 0 ∷ dies 1 ∷ runs 0 ∷ []) resting 1 refl refl refl
      (refl, (refl, (refl, (refl, tt)))) (omega arith)

stop-start_hangs_example : start false (runs 0 ∷ runs 1 ∷ []) stopped_service ≡ none
stop-start_hangs_example =
    stop-start_hangs (runs 1 ∷ leaves 0 ∷ leaves 1 ∷ []) (runs 0 ∷ runs 1 ∷ []) false pooled
      stopped_service [] stops

polling_thread_lost_example :
    (u : Service) × (start true (leaves 1 ∷ runs 0 ∷ []) (of_threads 2 false) ≡ some (true, u, []))
    × (u.started ≡ true)
    × (is_running 1 u ≡ false)
polling_thread_lost_example = polling_thread_lost 2 [] (omega arith) (omega arith)
