-- ===== src/Tests/Programs.antt =====
-- The loop of server.cpp at concrete values.
use kernel_udp_tcp.Prelude.{
  ℕ, ◌≡◌, refl, inr, Bool, true, false, List, [], ◌∷◌, none, some, length, arith,
}
use kernel_udp_tcp.Asio.{Asio, Bytes, ipv4, strand}
use kernel_udp_tcp.Asio.Action.{ok, state}
use kernel_udp_tcp.UdpServer.{
  UdpServer, start_handler, stop_handler, on_stopped, no_overrides, created,
}
use kernel_udp_tcp.UdpServer.Lifecycle.{start, stop, restart, await_stopped, run_stop}
use kernel_udp_tcp.UdpServer.Step.{Completion, run_task}
use kernel_udp_tcp.Programs.MulticastServer.{broadcast_loop}
use kernel_udp_tcp.Programs.Broadcast.{all_typed, lost_after_restart}
use kernel_udp_tcp.UdpClient.{UdpClient, of_address}
use kernel_udp_tcp.Programs.ClientLoop.{client_loop}
use kernel_udp_tcp.Tests.{host, loopback, fresh}

abbrev completed : Completion
completed = record { error = none; moved = 0; endpoint = host; bytes = [] }

abbrev listening : UdpServer Bool
listening = record fresh { started = true; socket = true; receive_buffer = 0 ∷ 0 ∷ 0 ∷ 0 ∷ [] }

-- A socket that keeps what it sent, newest first.
abbrev recording : Asio (List Bytes)
recording = record {
  make_address = λ a. some (ipv4, a);
  any_address = λ p. [];
  open_socket = λ p k. (k, none);
  set_option = λ o k. (k, none);
  bind = λ e k. (k, none);
  close = λ k. (k, none);
  cancel = λ k. (k, none);
  get_receive_buffer_size = λ k. (4, none);
  get_send_buffer_size = λ k. (4, none);
  send_to = λ b e k. (b ∷ k, length b, none);
  receive_from = λ n k. (k, host, [], none);
  resolve = λ a p. inr host;
  to_string = λ n. n ∷ [];
}

abbrev broadcaster : UdpServer (List Bytes)
broadcaster = record (created recording [] true [] host [] 0 host false false) { started = true }

abbrev two_lines : List (List ℕ)
two_lines = (104 ∷ 105 ∷ []) ∷ (33 ∷ 33 ∷ []) ∷ []

-- The stop handler runs in the first round.
abbrev stopping : List (UdpServer Bool → UdpServer Bool)
stopping =
    (λ s. state (run_task loopback no_overrides completed stop_handler (record s { pending = [] })))
    ∷ []

abbrev restarting : UdpServer Bool
restarting = record listening {
  started = false;
  socket = false;
  pending = (strand, start_handler) ∷ [];
  calls = on_stopped ∷ [];
}

restarts : restart loopback no_overrides stopping listening ≡ some (ok true restarting)
unfolding restart await_stopped stop start run_task run_stop
restarts = refl

lost_after_restart_example :
    broadcast_loop loopback
      (record { line = 33 ∷ []; meanwhile = λ s. s; rounds = stopping } ∷ all_typed two_lines)
      listening
    ≡ some (ok tt restarting)
lost_after_restart_example =
    lost_after_restart loopback stopping two_lines listening restarting restarts
      ((omega arith, refl), ((omega arith, refl), tt))

abbrev open_client : UdpClient Bool
open_client = record (of_address [] true false host (1 ∷ []) 3334) {
  connected = true;
  socket = true;
}

-- A line that is neither empty nor `!` is dropped, and the empty one ends the loop.
ignored :
    client_loop loopback (239 ∷ []) ((104 ∷ [], (λ s. s), []) ∷ ([], (λ s. s), []) ∷ []) open_client
    ≡ some (ok tt open_client)
unfolding client_loop
ignored = refl
