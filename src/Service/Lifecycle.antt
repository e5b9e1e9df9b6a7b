-- ===== src/Service/Lifecycle.antt =====
-- Start, Stop and Restart of Service, with the handlers that they post and the threads that run
-- them. A method that waits is given the moves that the threads of the service make meanwhile;
-- `none` means that it is still waiting when they are used up.
use kernel_udp_tcp.Prelude.{
  ℕ, ◌%◌, Bool, true, false, not, ◌||◌, ◌&&◌, Option, none, some, List, [], ◌∷◌, ◌++◌, replicate,
  set, get_or, ◌==◌, if◌then◌else◌,
}
use kernel_udp_tcp.Service.{
  Service, Task, start_handler, stop_handler, handler, on_started, on_stopped,
}

-- The handler that Start posts.
unfoldable pub run_start : Service → Service
run_start s = if s.started then s else record s { started = true; calls = on_started ∷ s.calls }

-- The handler that Stop posts.
unfoldable pub run_stop : Service → Service
run_stop s =
    if not s.started
    then s
    else record s { stopped = true; started = false; calls = on_stopped ∷ s.calls }

unfoldable pub run_task : Task → Service → Service
unfolding run_start run_stop
run_task start_handler s = run_start s
run_task stop_handler s = run_stop s
run_task (handler n) s = s

-- The oldest handler of the first io_service is run; a stopped io_service runs none.
unfoldable pub run_one : Service → Service
unfolding run_task
run_one s =
    if s.stopped
    then s
    else elim (s.posted) [ [] ↦ s | t ∷ rest ↦ run_task t (record s { posted = rest }) ]

-- What a thread does next: thread i runs a handler of its io_service, which is number i modulo their
-- number; it leaves the loop of ServiceThread; or an asio::system_error ends it (another exception
-- ends the process). A service that has no threads is run by the program, from outside.
pub data Move : Type 0 where
  runs leaves dies : ℕ → Move
  outside : Move

abbrev pub is_running : ℕ → Service → Bool
is_running i s = get_or s.running i false

abbrev pub none_posted : List Task → Bool
none_posted [] = true
none_posted (t ∷ rest) = false

-- run() and poll() come back from stopped io_services; poll() comes back also when it finds nothing
-- posted, and the loop then ends if the service is not started.
abbrev pub may_leave : ℕ → Service → Bool
may_leave i s =
    s.stopped
    || (s.polling && (not s.started && (not (i % s.services == 0) || none_posted s.posted)))

unfoldable pub act : Move → Service → Service
unfolding run_one
act (runs i) s = if is_running i s && i % s.services == 0 then run_one s else s
act (leaves i) s = if may_leave i s then record s { running = set s.running i false } else s
act (dies i) s = record s { running = set s.running i false }
act outside s = if s.threads == 0 then run_one s else s

-- `while (!test) Yield();`, with the moves that are left.
unfoldable pub await : (Service → Bool) → List Move → Service → Option (Service × List Move)
unfolding act
await test [] s = if test s then some (s, []) else none
await test (move ∷ rest) s =
    let later = await test rest (act move s) in if test s then some (s, move ∷ rest) else later

abbrev pub post : Task → Service → Service
post t s = record s { posted = s.posted ++ t ∷ [] }

-- Start up to its wait: the handler is posted, and each thread starts.
abbrev pub requested : Bool → Service → Service
requested polling s = record (post start_handler s) {
  polling = polling;
  round_robin_index = 0;
  running = replicate s.threads true;
}

-- What a method returns, the service after it, and the moves that are left.
abbrev pub Outcome : Type 0
Outcome = Option (Bool × Service × List Move)

-- `return true;` after a wait.
abbrev pub succeeds : Option (Service × List Move) → Outcome
succeeds none = none
succeeds (some (s, rest)) = some (true, s, rest)

unfoldable pub start : Bool → List Move → Service → Outcome
unfolding await
start polling moves s =
    if s.started
    then some (false, s, moves)
    else succeeds (await (λ t. t.started) moves (requested polling s))

-- Every thread has ended, so that join() comes back from each.
abbrev pub none_running : List Bool → Bool
none_running [] = true
none_running (r ∷ rest) = not r && none_running rest

-- Stop from where the threads have been joined.
abbrev pub joined : Option (Service × List Move) → Outcome
joined none = none
joined (some (s, rest)) = succeeds (await (λ t. not t.started) rest (record s { polling = false }))

unfoldable pub stop : List Move → Service → Outcome
unfolding await
stop moves s =
    if not s.started
    then some (false, s, moves)
    else joined (await (λ t. none_running t.running) moves (post stop_handler s))

-- Fresh io_services, with nothing posted to them.
abbrev pub renewed : Service → Service
renewed s = record s { stopped = false; posted = [] }

-- Restart from where Stop has returned, with the polling mode that was saved.
abbrev pub renews : Bool → Outcome → Outcome
renews polling none = none
renews polling (some (false, s, rest)) = some (false, s, rest)
renews polling (some (true, s, rest)) = start polling rest (renewed s)

unfoldable pub restart : List Move → Service → Outcome
unfolding stop start
restart moves s = renews s.polling (stop moves s)

-- Post and Dispatch of a handler of the program; a dispatch on a thread of the service runs it at
-- once.
unfoldable post_handler : ℕ → Service → Service
post_handler n s = post (handler n) s
