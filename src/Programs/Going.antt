-- ===== src/Programs/Going.antt =====
-- The service of a program when nothing goes wrong: its one thread runs the handler of Start, and
-- later that of Stop.
use kernel_udp_tcp.Prelude.{◌≡◌, refl, true, false, List, [], ◌∷◌, some}
use kernel_udp_tcp.Service.{Service, of_threads, made, on_started, on_stopped}
use kernel_udp_tcp.Service.Lifecycle
use kernel_udp_tcp.Service.Lifecycle.{Move, runs, leaves}

-- The service of the program once it is started, and once it is stopped.
abbrev pub going : Service
going = record (made 1 1 false) { started = true; running = true ∷ []; calls = on_started ∷ [] }

abbrev pub gone : Service
gone = record going {
  started = false;
  stopped = true;
  running = false ∷ [];
  calls = on_stopped ∷ on_started ∷ [];
}

pub start_goes :
    (more : List Move)
    → Lifecycle.start false (runs 0 ∷ more) (of_threads 1 false) ≡ some (true, going, more)
unfolding Lifecycle.start Lifecycle.await Lifecycle.act Lifecycle.run_one Lifecycle.run_task
    Lifecycle.run_start of_threads
start_goes [] = refl
start_goes (m ∷ more) = refl

pub stop_goes :
    (more : List Move) → Lifecycle.stop (runs 0 ∷ leaves 0 ∷ more) going ≡ some (true, gone, more)
unfolding Lifecycle.stop Lifecycle.await Lifecycle.act Lifecycle.run_one Lifecycle.run_task
    Lifecycle.run_stop
stop_goes [] = refl
stop_goes (m ∷ more) = refl
