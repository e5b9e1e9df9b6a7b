-- ===== src/Tests/Server.antt =====
-- A UDPServer at concrete values.
use kernel_udp_tcp.Prelude.{
  ℕ, ◌≡◌, refl, inl, Bool, true, false, List, [], ◌∷◌, none, some, length, arith,
}
use kernel_udp_tcp.Asio.{already_open, other, ipv4}
use kernel_udp_tcp.Asio.Race.{Schedule}
use kernel_udp_tcp.Asio.Action.{ok, throw, state}
use kernel_udp_tcp.UdpServer.{
  UdpServer, start_handler, strand, no_overrides, async_send_to, async_receive_from, on_received,
  on_started, on_stopped, of_port, of_address, of_endpoint, created,
}
use kernel_udp_tcp.UdpServer.Lifecycle.{start, run_start, open_and_bind, restart}
use kernel_udp_tcp.UdpServer.Restart.{stop_runs, restart_comes_back}
use kernel_udp_tcp.UdpServer.Send.{send_async, run_send}
use kernel_udp_tcp.UdpServer.Receive.{grow, try_receive, run_receive}
use kernel_udp_tcp.UdpServer.Step.{
  start_call, Completion, perform, run_task, calls, runs, here, next,
}
use kernel_udp_tcp.UdpServer.Invariant.{Inv, no_overrides-Keeps}
use kernel_udp_tcp.UdpServer.Reach.{created-Reach-Inv}
use kernel_udp_tcp.UdpServer.Stuck.Failure.{failed_start_forever}
use kernel_udp_tcp.UdpServer.Growth.{run_receive-doubles}
use kernel_udp_tcp.UdpServer.Delivery.{Delivered, send_async-run_send, try_receive-run_receive}
use kernel_udp_tcp.Tests.{
  host, loopback, crowded, IsOpen, IsClosed, loopback-Succeeds, crowded-OpenLaws, fresh,
}

abbrev completed : Completion
completed = record { error = none; moved = 0; endpoint = host; bytes = [] }

abbrev posted : UdpServer Bool
posted = state (perform loopback no_overrides start_call fresh)

abbrev running : UdpServer Bool
running =
    state (run_task loopback no_overrides completed start_handler (record posted { pending = [] }))

created-Reach-Inv_example : Inv running
unfolding perform start
created-Reach-Inv_example =
    created-Reach-Inv loopback no_overrides (no_overrides-Keeps Bool) [] true false host host [] 0
      false false
      (next (next here (calls start_call)) (runs [] [] strand start_handler completed refl))

running_is_started : running.started ≡ true
unfolding perform run_task start run_start
running_is_started = refl

abbrev broken : UdpServer Bool
broken = record fresh { socket = true }

failed_start_forever_example :
    (run_start crowded no_overrides fresh ≡ throw (other 98) broken)
    × (broken.started ≡ false)
    × (run_start crowded no_overrides broken ≡ throw already_open broken)
unfolding open_and_bind
failed_start_forever_example =
    failed_start_forever crowded no_overrides IsOpen crowded-OpenLaws fresh broken (other 98) refl
      refl refl here

abbrev listening : UdpServer Bool
listening = record fresh { started = true; socket = true; receive_buffer = 0 ∷ 0 ∷ 0 ∷ 0 ∷ [] }

abbrev full : List ℕ
full = 7 ∷ 8 ∷ 9 ∷ 10 ∷ []

run_receive-doubles_example :
    length (state (run_receive loopback no_overrides none host full listening)).receive_buffer ≡ 8
run_receive-doubles_example =
    run_receive-doubles loopback none host full listening (omega arith) (omega arith)

doubled :
    length (state (run_receive loopback no_overrides none host full listening)).receive_buffer ≡ 8
unfolding run_receive grow
doubled = refl

send_async-run_send_example :
    (t : UdpServer Bool) × (send_async loopback no_overrides host (some full) 4 listening
      ≡ ok true t)
    × (t.pending ≡ (strand, async_send_to full host) ∷ [])
    × (t.bytes_sending ≡ 4)
    × (u : UdpServer Bool) × (run_send loopback no_overrides none 4 (record t { pending = [] })
        ≡ ok tt u)
    × Delivered loopback host 4 listening u
send_async-run_send_example =
    send_async-run_send loopback host full 4 4 listening refl refl (omega arith) (inl refl)
      (omega arith)

try_receive-run_receive_example :
    (t : UdpServer Bool) × (try_receive loopback no_overrides listening ≡ ok tt t)
    × (t.pending ≡ (strand, async_receive_from 4) ∷ [])
    × (u : UdpServer Bool) × (run_receive loopback no_overrides none host full
          (record t { pending = [] })
        ≡ ok tt u)
    × (u.receiving ≡ false)
    × (u.bytes_received ≡ 4)
    × (u.datagrams_received ≡ 1)
    × (u.calls ≡ on_received host full ∷ [])
try_receive-run_receive_example =
    try_receive-run_receive loopback host full listening refl refl refl (omega arith)

-- The timer runs out first, and the operation moved three bytes before it was cancelled.
abbrev late : Schedule
late = record {
  timer_first = true;
  timer_error = none;
  io_error = none;
  moved = 3;
  cancel_throws = false;
  called_even_so = true;
  stored_in_time = false;
}

ports : (of_port loopback [] false false host 65537 ipv4).endpoint.port ≡ 1
unfolding of_port
ports = refl

addresses :
    (of_address loopback [] false false host (1 ∷ []) 80
      ≡ some (
          created loopback [] false false host
            (1 ∷ [])
            80
            (record { protocol = ipv4; address = 1 ∷ []; port = 80 })
            false
            false))
    × ((of_endpoint loopback [] false false host host true false).port ≡ 3334)
unfolding of_address of_endpoint
addresses = (refl, refl)

abbrev in_group : UdpServer Bool
in_group = record listening { pending = (strand, async_receive_from 4) ∷ []; receiving = true }

restart_comes_back_example :
    (t : UdpServer Bool) × (restart loopback no_overrides
        (stop_runs loopback in_group ∷ [])
        in_group
      ≡ some (ok true t))
    × (t.pending ≡ (strand, async_receive_from 4) ∷ (strand, start_handler) ∷ [])
    × (u : UdpServer Bool) × (run_start loopback no_overrides
          (record t { pending = (strand, async_receive_from 4) ∷ [] })
        ≡ ok tt u)
    × (u.started ≡ true)
    × (u.calls ≡ on_started ∷ on_stopped ∷ [])
    × (u.bytes_sent ≡ 0)
    × (u.bytes_received ≡ 0)
    × (u.datagrams_sent ≡ 0)
    × (u.datagrams_received ≡ 0)
    × (length u.receive_buffer ≡ 4)
    × (u.multicast_endpoint ≡ host)
restart_comes_back_example =
    restart_comes_back loopback IsClosed IsOpen 4 in_group [] loopback-Succeeds refl refl
