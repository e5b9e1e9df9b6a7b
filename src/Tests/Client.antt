-- ===== src/Tests/Client.antt =====
-- A UDPClient at concrete values.
use kernel_udp_tcp.Prelude.{
  ℕ, ◌≡◌, refl, Bool, true, false, List, [], ◌∷◌, none, some, length, arith, inl, inr,
}
use kernel_udp_tcp.Asio.{Asio, strand, operation_aborted, already_open, other, connection_refused}
use kernel_udp_tcp.Asio.Action.{ok, throw, state}
use kernel_udp_tcp.UdpClient.{
  UdpClient, of_address, of_scheme, of_endpoint, no_overrides, connect_handler, async_receive_from,
  async_send_to, on_error, on_sent,
}
use kernel_udp_tcp.UdpClient.Connection.{
  connect, connect_async, connect_to, run_connect, open_and_bind,
}
use kernel_udp_tcp.UdpClient.Send.{send_to, send_async, run_send}
use kernel_udp_tcp.UdpClient.Receive.{run_receive}
use kernel_udp_tcp.UdpClient.Step.{
  connect_async_call, Completion, perform, run_task, calls, runs, here, next,
}
use kernel_udp_tcp.UdpClient.Invariant.{Inv, no_overrides-Keeps}
use kernel_udp_tcp.UdpClient.Reach.{client-Reach-Inv}
use kernel_udp_tcp.UdpClient.Delivery.{Delivered, client_send_async_lem}
use kernel_udp_tcp.UdpClient.Failure.{
  reported, Disconnected, run_receive-Disconnected, send_to-Disconnected,
}
use kernel_udp_tcp.Programs.MulticastClient.{multicast_client, program-Inv}
use kernel_udp_tcp.Programs.Growth.{full_datagram-listening}
use kernel_udp_tcp.UdpClient.Stuck.Failure.{failed_connect_forever}
use kernel_udp_tcp.Tests.{host, loopback, crowded, IsOpen, crowded-OpenLaws}

abbrev fresh_client : UdpClient Bool
fresh_client = of_address [] true false host (1 ∷ []) 3334

abbrev done : Completion
done = record { error = none; moved = 0; endpoint = host; bytes = []; answer = inr host }

abbrev requested : UdpClient Bool
requested = state (perform loopback no_overrides connect_async_call fresh_client)

abbrev client : UdpClient Bool
client =
    state (run_task loopback no_overrides done connect_handler (record requested { pending = [] }))

client-Reach-Inv_example : Inv client
unfolding perform connect_async
client-Reach-Inv_example =
    client-Reach-Inv loopback no_overrides (no_overrides-Keeps Bool) [] true false host host
      (1 ∷ []) [] 3334
      (next (next here (calls connect_async_call)) (runs [] [] strand connect_handler done refl))

client_is_connected : (client.connected ≡ true) × (length client.receive_buffer ≡ 4)
unfolding perform run_task connect connect_to run_connect connect_async
client_is_connected = (refl, refl)

by_name : (of_scheme [] true false host (1 ∷ []) (2 ∷ [])).port ≡ 0
by_name = refl

by_endpoint : (of_endpoint [] true false host host).port ≡ 3334
by_endpoint = refl

abbrev group : List ℕ
group = 239 ∷ []

abbrev started : UdpClient Bool
started =
    state (perform loopback (multicast_client loopback false group) connect_async_call fresh_client)

program-Inv_example : Inv started
program-Inv_example =
    program-Inv loopback false group [] true false host (1 ∷ []) 3334
      (next here (calls connect_async_call))

-- A connected client, with a datagram buffered.
abbrev open_client : UdpClient Bool
open_client = record fresh_client {
  connected = true;
  socket = true;
  receive_buffer = 0 ∷ 0 ∷ 0 ∷ 0 ∷ [];
  send_buffer = 5 ∷ [];
  bytes_sending = 1;
}

run_receive-Disconnected_example :
    (t : UdpClient Bool) × (run_receive loopback no_overrides
        (some operation_aborted)
        host
        []
        open_client
      ≡ ok tt t)
    × Disconnected [] open_client t
run_receive-Disconnected_example =
    run_receive-Disconnected loopback operation_aborted host [] open_client refl refl

-- An asio that sends one byte of each datagram and reports an error.
abbrev partly : Asio Bool
partly = record loopback { send_to = λ b e k. (k, 1, some (other 5)) }

send_to-Disconnected_example :
    (t : UdpClient Bool) × (send_to partly no_overrides host (some (7 ∷ 8 ∷ [])) 2 open_client
      ≡ ok 1 t)
    × (t.bytes_sent ≡ 1)
    × Disconnected (on_error (other 5) ∷ on_sent host 1 ∷ []) open_client t
send_to-Disconnected_example =
    send_to-Disconnected partly host (7 ∷ 8 ∷ []) 2 1 true (other 5) open_client refl (omega arith)
      refl refl

full_datagram-listening_example :
    (t : UdpClient Bool) × (run_receive loopback
        (multicast_client loopback false group)
        none
        host
        (1 ∷ 2 ∷ 3 ∷ 4 ∷ [])
        open_client
      ≡ ok tt t)
    × (t.pending ≡ (strand, async_receive_from 4) ∷ [])
    × (length t.receive_buffer ≡ 8)
full_datagram-listening_example =
    full_datagram-listening loopback false group host (1 ∷ 2 ∷ 3 ∷ 4 ∷ []) open_client refl refl
      refl (omega arith)

abbrev broken_client : UdpClient Bool
broken_client = record fresh_client { socket = true; endpoint = host }

failed_connect_forever_example :
    (connect_to crowded no_overrides host fresh_client ≡ throw (other 98) broken_client)
    × (broken_client.connected ≡ false)
    × (connect_to crowded no_overrides host broken_client ≡ throw already_open broken_client)
unfolding open_and_bind
failed_connect_forever_example =
    failed_connect_forever crowded IsOpen crowded-OpenLaws no_overrides (λ c s h. h) host host
      fresh_client broken_client (other 98) refl refl refl here

abbrev connected_client : UdpClient Bool
connected_client = record fresh_client { connected = true; socket = true }

client_send_async_example :
    (t : UdpClient Bool) × (send_async loopback no_overrides host
        (some (1 ∷ 2 ∷ 3 ∷ []))
        2
        connected_client
      ≡ ok true t)
    × (t.pending ≡ (strand, async_send_to (1 ∷ 2 ∷ []) host) ∷ [])
    × (t.bytes_sending ≡ 2)
    × ((u : UdpClient Bool) × (run_send loopback no_overrides none 2 (record t { pending = [] })
          ≡ ok tt u)
        × Delivered loopback host 2 connected_client u)
    × (v : UdpClient Bool) × (run_send loopback no_overrides
          (some connection_refused)
          2
          (record t { pending = [] })
        ≡ ok tt v)
    × Disconnected (reported connection_refused []) t v
client_send_async_example =
    client_send_async_lem loopback host (1 ∷ 2 ∷ 3 ∷ []) 2 2 connection_refused connected_client
      refl refl (omega arith) (inl refl) (omega arith) refl
