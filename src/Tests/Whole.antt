-- ===== src/Tests/Whole.antt =====
-- The main function of client.cpp, and the two programs as a whole, at concrete values.
use kernel_udp_tcp.Prelude.{ℕ, ◌≡◌, refl, inr, false, List, [], ◌∷◌, none, some, replicate, arith}
use kernel_udp_tcp.Asio.{ipv4, other, operation_aborted}
use kernel_udp_tcp.Asio.Action.{ok}
use kernel_udp_tcp.Service.Lifecycle as Service
use kernel_udp_tcp.Service.Lifecycle.{runs, leaves}
use kernel_udp_tcp.UdpServer.{UdpServer, of_port, on_sent, on_started, on_stopped}
use kernel_udp_tcp.UdpServer.Lifecycle.{run_start, run_stop}
use kernel_udp_tcp.UdpClient.{UdpClient, on_connected, on_joined, on_disconnected}
use kernel_udp_tcp.Programs.MulticastServer.{message, broadcast_loop}
use kernel_udp_tcp.Programs.Broadcast.{all_typed}
use kernel_udp_tcp.Programs.Listening.{Datagram, heard}
use kernel_udp_tcp.Asio.Success.{Succeeds}
use kernel_udp_tcp.Programs.Network.{datagrams}
use kernel_udp_tcp.UdpServer.Send.{send_bytes, count_sent}
use kernel_udp_tcp.UdpClient.Connection as Client
use kernel_udp_tcp.UdpClient.Step as ClientStep
use kernel_udp_tcp.Programs.ServerMain.{main}
use kernel_udp_tcp.Programs.ClientMain as ClientMain
use kernel_udp_tcp.Programs.Disconnected.{Line}
use kernel_udp_tcp.Programs.NoConnection.{no_connection_hangs}
use kernel_udp_tcp.Programs.Turns.{World}
use kernel_udp_tcp.Programs.Going.{gone}
use kernel_udp_tcp.Programs.Leaving.{came, between, takes}
use kernel_udp_tcp.Programs.ClientEnding.{client_main_ends}
use kernel_udp_tcp.Programs.Ending.{Sending}
use kernel_udp_tcp.Programs.Together.{whole_programs_lem}
use kernel_udp_tcp.Tests.{host, crowded}
use kernel_udp_tcp.Tests.Wire.{
  Anyhow, IsMessage-lines, handled, two_lines, wire, wire-Sends, wire-Succeeds,
}

abbrev connected_to : ClientStep.Completion
connected_to = record { error = none; moved = 0; endpoint = host; bytes = []; answer = inr host }

-- A `!`, then an empty line.
abbrev two_rounds : List (Line crowded (239 ∷ []))
two_rounds = (33 ∷ [], (λ s. s), []) ∷ ([], (λ s. s), []) ∷ []

no_connection_hangs_example :
    ClientMain.main crowded
      (239 ∷ [])
      []
      false
      host
      (1 ∷ [])
      3334
      (runs 0 ∷ [])
      (connected_to ∷ [])
      two_rounds
      []
      (connected_to ∷ [])
      (runs 0 ∷ leaves 0 ∷ runs 0 ∷ [])
    ≡ none
unfolding Client.open_and_bind
no_connection_hangs_example =
    no_connection_hangs crowded (239 ∷ []) [] false host (1 ∷ []) 3334 (runs 0 ∷ []) connected_to []
      (connected_to ∷ []) two_rounds [] (runs 0 ∷ leaves 0 ∷ runs 0 ∷ []) (ipv4, 1 ∷ []) (other 98)
      _ refl refl refl refl refl ((λ s. refl), ((λ s. refl), tt))

-- The two lines, each with a datagram before it.
abbrev two_came : List (List ℕ × List Datagram)
two_came =
    (120 ∷ [], (host, message (104 ∷ 105 ∷ [])) ∷ [])
    ∷ (121 ∷ [], (host, message (33 ∷ 33 ∷ [])) ∷ [])
    ∷ []

abbrev cut_off : ClientStep.Completion
cut_off = record connected_to { error = some operation_aborted }

client_main_ends_example :
    (w : World (UdpClient (List Datagram))) × (ClientMain.main wire
        (239 ∷ [])
        []
        []
        host
        (1 ∷ [])
        3334
        (runs 0 ∷ [])
        (connected_to ∷ [])
        (between wire (239 ∷ []) two_came)
        (takes wire (239 ∷ []) cut_off ∷ [])
        (connected_to ∷ [])
        (runs 0 ∷ leaves 0 ∷ [])
      ≡ some (ok tt w))
    × (w.object.calls
        ≡ on_disconnected ∷ heard (came two_came) (on_joined (239 ∷ []) ∷ on_connected ∷ []))
    × (w.object.datagrams_received ≡ 2)
    × (w.object.connected ≡ false)
    × Anyhow w.object.socket
    × (w.object.pending ≡ [])
    × (w.service.started ≡ false)
client_main_ends_example =
    client_main_ends wire (239 ∷ []) Anyhow Anyhow 64 wire-Succeeds (λ k h. h) (ipv4, 239 ∷ []) refl
      [] [] host (1 ∷ []) 3334 [] [] connected_to cut_off connected_to two_came [] (ipv4, 1 ∷ []) tt
      refl refl refl
      ((omega arith, refl, (omega arith, tt)), ((omega arith, refl, (omega arith, tt)), tt)) refl

abbrev server_ended : World (UdpServer (List Datagram))
server_ended = record {
  object = record (of_port wire [] false [] host 0 ipv4) {
    multicast_endpoint = host;
    socket = datagrams host two_lines;
    receive_buffer = replicate 64 0;
    datagrams_sent = 2;
    bytes_sent = 42;
    calls = on_stopped ∷ on_sent host 21 ∷ on_sent host 21 ∷ on_started ∷ [];
  };
  service = gone;
}

server_ends :
    main wire [] [] host
      (1 ∷ [])
      3334
      (runs 0 ∷ [])
      (handled ∷ [])
      (all_typed two_lines)
      (handled ∷ [])
      (runs 0 ∷ leaves 0 ∷ [])
    ≡ some (ok tt server_ended)
unfolding main Service.start run_start run_stop broadcast_loop send_bytes count_sent Service.stop
server_ends = refl

-- A socket that has sent nothing.
abbrev Unused : List Datagram → Type 0
Unused k = k ≡ []

wire-Unused : Succeeds wire Unused Unused 64
wire-Unused = record {
  opens = λ p k h. (refl, h);
  options = λ o k h. (refl, h);
  binds = λ e k h. (refl, h);
  sized = λ k h. refl;
  closes = λ k h. (refl, h);
}

wire-Sending : Sending wire Unused Anyhow (λ b e k. (wire.send_to b e k).0)
wire-Sending = record {
  whole = λ b e k. refl;
  opened = λ k h. tt;
  stays = λ b e k h. h;
  closes = λ k h. refl;
}

whole_programs_example :
    (v : World (UdpClient (List Datagram))) × (ClientMain.main wire
        (239 ∷ [])
        []
        []
        host
        (1 ∷ [])
        3334
        (runs 0 ∷ [])
        (connected_to ∷ [])
        (between wire (239 ∷ []) two_came)
        (takes wire (239 ∷ []) cut_off ∷ [])
        (connected_to ∷ [])
        (runs 0 ∷ leaves 0 ∷ [])
      ≡ some (ok tt v))
    × (v.object.calls
        ≡ on_disconnected
          ∷ heard (datagrams host two_lines) (on_joined (239 ∷ []) ∷ on_connected ∷ []))
    × (v.object.datagrams_received ≡ 2)
    × (server_ended.object.started ≡ false)
    × (server_ended.service.started ≡ false)
    × (v.object.connected ≡ false)
    × (v.service.started ≡ false)
whole_programs_example =
    whole_programs_lem wire (λ k. k) wire-Sends Unused Unused Anyhow 64 wire-Unused wire-Sending
      (λ k h. h) (λ k. refl) wire Anyhow Anyhow 64 wire-Succeeds (λ k h. h) (239 ∷ [])
      (ipv4, 239 ∷ []) refl host [] [] host (1 ∷ []) 3334 [] [] handled handled two_lines
      (ipv4, 1 ∷ []) server_ended [] [] (1 ∷ []) 3334 [] [] connected_to cut_off connected_to
      two_came [] (ipv4, 1 ∷ []) refl refl IsMessage-lines server_ends tt refl refl refl
      ((omega arith, refl, (omega arith, tt)), ((omega arith, refl, (omega arith, tt)), tt)) refl
      refl
