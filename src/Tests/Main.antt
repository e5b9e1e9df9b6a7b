-- ===== src/Tests/Main.antt =====
-- The main function of server.cpp, and a lossy network, at concrete values.
use mathlib.Core.List.{Mem, mem-cons_of_mem, mem-cons_self}
use kernel_udp_tcp.Prelude.{◌≡◌, refl, true, false, List, [], ◌∷◌, ◌++◌, none, some, All, arith}
use kernel_udp_tcp.Asio.{ipv4, other}
use kernel_udp_tcp.Asio.Action.{ok}
use kernel_udp_tcp.Service.Lifecycle.{runs, leaves}
use kernel_udp_tcp.UdpServer.{UdpServer, of_port}
use kernel_udp_tcp.UdpServer.Lifecycle.{open_and_bind}
use kernel_udp_tcp.UdpClient.{UdpClient, of_address, on_connected, on_joined}
use kernel_udp_tcp.Programs.MulticastServer.{message, broadcast_loop}
use kernel_udp_tcp.Programs.Broadcast.{all_typed, logged}
use kernel_udp_tcp.Programs.Listening.{Datagram, Listening, heard}
use kernel_udp_tcp.UdpClient.Success.{Ready}
use kernel_udp_tcp.Programs.Network.{session, from}
use kernel_udp_tcp.Programs.Lossy.{Said, only_typed_heard}
use kernel_udp_tcp.UdpServer.Send.{send_bytes, count_sent}
use kernel_udp_tcp.Programs.ServerMain.{main}
use kernel_udp_tcp.Programs.Turns.{World}
use kernel_udp_tcp.Programs.Ending.{Sending, main_ends}
use kernel_udp_tcp.Programs.TakenPort.{taken_port_hangs}
use kernel_udp_tcp.Tests.{host, crowded}
use kernel_udp_tcp.Tests.Wire.{
  Anyhow, IsMessage-lines, all_read, handled, sending, two_lines, wire, wire-Sends, wire-Succeeds,
}

abbrev new_client : UdpClient (List Datagram)
new_client = of_address [] true [] host (1 ∷ []) 3334

new_client-Ready : Ready wire new_client
new_client-Ready = record {
  host = (ipv4, 1 ∷ []);
  named = refl;
  valid = refl;
  port = refl;
  down = refl;
  free = refl;
  idle = refl;
}

-- On a port that is taken the thread has nothing to do, and Stop waits.
taken_port_hangs_example :
    main crowded [] false host
      (1 ∷ [])
      3334
      (runs 0 ∷ [])
      (handled ∷ [])
      (all_typed two_lines)
      (handled ∷ [])
      (runs 0 ∷ leaves 0 ∷ runs 0 ∷ [])
    ≡ none
unfolding open_and_bind of_port
taken_port_hangs_example =
    taken_port_hangs crowded [] false host (1 ∷ []) 3334 (runs 0 ∷ []) handled [] (handled ∷ [])
      (all_typed two_lines) (runs 0 ∷ leaves 0 ∷ runs 0 ∷ []) (ipv4, 1 ∷ []) (other 98) _ refl refl
      refl ((λ s. refl), ((λ s. refl), tt))

wire-Sending : Sending wire Anyhow Anyhow (λ b e k. k ++ (e, b) ∷ [])
wire-Sending = record {
  whole = λ b e k. refl;
  opened = λ k h. h;
  stays = λ b e k h. h;
  closes = λ k h. refl;
}

main_ends_example :
    (k : List Datagram) × Anyhow k
    × (w : World (UdpServer (List Datagram))) × (main wire [] [] host
          (1 ∷ [])
          3334
          (runs 0 ∷ [])
          (handled ∷ [])
          (all_typed two_lines)
          (handled ∷ [])
          (runs 0 ∷ leaves 0 ∷ [])
        ≡ some (ok tt w))
    × (w.object.socket
        ≡ logged wire
            (λ b e k. k ++ (e, b) ∷ [])
            (record { protocol = ipv4; address = 1 ∷ []; port = 3334 })
            two_lines
            k)
    × (w.object.datagrams_sent ≡ 2)
    × (w.object.started ≡ false)
    × (w.object.pending ≡ [])
    × (w.service.started ≡ false)
main_ends_example =
    main_ends wire Anyhow Anyhow Anyhow 64 wire-Succeeds (λ b e k. k ++ (e, b) ∷ []) wire-Sending []
      [] host (1 ∷ []) 3334 handled handled two_lines [] [] (ipv4, 1 ∷ []) tt refl IsMessage-lines

reads : broadcast_loop wire (all_typed two_lines) sending ≡ some (ok tt all_read)
unfolding broadcast_loop send_bytes count_sent
reads = refl

-- The second datagram comes first, and twice; the first is lost.
abbrev brought : List Datagram
brought = (host, message (33 ∷ 33 ∷ [])) ∷ (host, message (33 ∷ 33 ∷ [])) ∷ []

second-sent : Mem {A = Datagram} (host, message (33 ∷ 33 ∷ [])) (from host all_read.socket)
second-sent = mem-cons_of_mem _ mem-cons_self

only_typed_heard_example :
    (v : UdpClient (List Datagram)) × (session wire false (239 ∷ []) brought new_client ≡ ok tt v)
    × (v.calls ≡ heard brought (on_joined (239 ∷ []) ∷ on_connected ∷ []))
    × All (Said host two_lines) brought
    × Listening 64 v
only_typed_heard_example =
    only_typed_heard wire (λ k. k) wire-Sends wire Anyhow Anyhow 64 wire-Succeeds false (239 ∷ [])
      (ipv4, 239 ∷ []) refl host two_lines sending all_read new_client brought refl (omega arith)
      refl (((omega arith, refl), omega arith), (((omega arith, refl), omega arith), tt)) reads
      (second-sent, (second-sent, tt)) new_client-Ready tt
