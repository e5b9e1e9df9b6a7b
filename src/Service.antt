-- ===== src/Service.antt =====
-- Service (include/server/asio/service.h, source/server/asio/service.cpp): the io_services, the
-- threads that run them, and the choice of one for a new object.
pub mod RoundRobin
pub mod Thread
pub mod Lifecycle
pub mod Await
pub mod Reach
pub mod Renewal
pub mod Live
pub mod Hang
pub mod Poll
pub mod Single
use kernel_udp_tcp.Prelude.{
  ℕ, zero, suc, ◌+◌, ◌%◌, ◌^◌, Bool, true, false, not, List, [], replicate, Option, none, some, ltb,
  ◌==◌, if◌then◌else◌,
}

-- What is posted to the first io_service, straight or through the strand: the handlers of Start and
-- Stop, and those that the program hands to Post, which leave the service alone.
pub data Task : Type 0 where
  start_handler stop_handler : Task
  handler : ℕ → Task

pub data Callback : Type 0 where
  on_started on_stopped : Callback

-- The fields. Of the io_services there is their number, what is posted to the first one, and whether
-- they are stopped; of each thread, whether it is inside ServiceThread. `calls` has the calls
-- of onStarted and onStopped so far, newest first.
pub record Service : Type 0 where
  pub services : ℕ
  pub threads : ℕ
  pub strand_required : Bool
  pub polling : Bool
  pub started : Bool
  pub round_robin_index : ℕ
  pub stopped : Bool
  pub posted : List Task
  pub running : List Bool
  pub calls : List Callback

abbrev pub made : ℕ → ℕ → Bool → Service
made services threads strand_required = record {
  services = services;
  threads = threads;
  strand_required = strand_required;
  polling = false;
  started = false;
  round_robin_index = 0;
  stopped = false;
  posted = [];
  running = replicate threads false;
  calls = [];
}

-- The rounds of `for (int thread = 0; thread < threads; ++thread)`, of an int given by its 32-bit
-- pattern: none for a negative number.
abbrev pub rounds_of : ℕ → ℕ
rounds_of threads = if ltb threads (2 ^ 31) then threads else 0

-- Service(threads, pool)
unfoldable pub of_threads : ℕ → Bool → Service
of_threads threads pool =
    if threads == 0
    then made 1 0 false
    else if not pool
    then made (rounds_of threads) (rounds_of threads) false
    else made 1 (rounds_of threads) true

-- Service(service, strands), where the io_service is not nullptr.
unfoldable pub of_service : Bool → Service
of_service strands = made 1 0 strands

-- GetAsioService: the index of the io_service, and the service after the call. The index is a
-- size_t. With no io_service the remainder is undefined; here it is the index.
unfoldable pub get_asio_service : Service → ℕ × Service
get_asio_service s =
    let index = (s.round_robin_index + 1) % 2 ^ 64 in
    (index % s.services, record s { round_robin_index = index })
