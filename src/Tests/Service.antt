-- ===== src/Tests/Service.antt =====
-- A Service at concrete values.
use kernel_udp_tcp.Prelude.{
  ◌+◌, ◌<◌, ◌≡◌, ◌≢◌, refl, true, false, List, replicate, [], ◌∷◌, ◌++◌, arith,
}
use kernel_udp_tcp.Asio.{already_open, not_connected}
use kernel_udp_tcp.Service.{Service, of_service, get_asio_service}
use kernel_udp_tcp.Service.RoundRobin.{handed_out, get_asio_service_cycle}
use kernel_udp_tcp.Service.Thread.{
  Round, returns, system_error, on_thread_initialize, on_thread_cleanup, on_idle, on_error,
  service_thread, error_ends_thread, idles,
}

abbrev four : Service
four = record {
  services = 4;
  threads = 4;
  strand_required = false;
  polling = false;
  started = false;
  round_robin_index = 6;
  stopped = false;
  posted = [];
  running = replicate 4 false;
  calls = [];
}

get_asio_service_cycle_example :
    (handed_out 0 four < 4)
    × (handed_out (0 + 4) four ≡ handed_out 0 four)
    × (handed_out (0 + 3) four ≢ handed_out 0 four)
get_asio_service_cycle_example =
    get_asio_service_cycle 0 3 four (omega arith) (omega arith) (omega arith)

seventh : (get_asio_service four).0 ≡ 3
unfolding get_asio_service
seventh = refl

shared : (of_service true).services ≡ 1
unfolding of_service
shared = refl

abbrev before : List Round
before =
    record { ending = returns; started = true }
    ∷ record { ending = system_error not_connected; started = true }
    ∷ []

abbrev later : List Round
later = record { ending = returns; started = true } ∷ []

error_ends_thread_example :
    service_thread true
      (before ++ (record { ending = system_error already_open; started = true } ∷ later))
    ≡ on_thread_initialize ∷ on_idle ∷ on_error already_open ∷ on_thread_cleanup ∷ []
unfolding idles
error_ends_thread_example =
    error_ends_thread true true before later already_open (refl, (refl, tt)) refl
