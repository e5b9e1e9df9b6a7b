-- ===== src/Programs/Asked.antt =====
-- The program of server.cpp up to where the server has been asked to start.
use kernel_udp_tcp.Prelude.{ℕ, ◌≡◌, ap, true, false, List, [], Option, some, Text, Bool, arith}
use kernel_udp_tcp.Asio.{Asio, Bytes, Endpoint, InternetProtocol, ipv4}
use kernel_udp_tcp.Asio.Action.{Outcome, ok, throw}
use kernel_udp_tcp.Service.{Service}
use kernel_udp_tcp.Service.Lifecycle.{Move}
use kernel_udp_tcp.UdpServer
use kernel_udp_tcp.UdpServer.{UdpServer, no_overrides, of_port, submit, unsigned_short}
use kernel_udp_tcp.UdpServer.Lifecycle.{start, start_multicast_at, start_multicast}
use kernel_udp_tcp.UdpServer.Step.{Completion}
use kernel_udp_tcp.Programs.MulticastServer.{Input, serve}
use kernel_udp_tcp.Programs.ServerMain.{oldest, broadcasts_on}
use kernel_udp_tcp.Programs.Turns.{World, turns, finish}

module _ {Socket : Type 0} (asio : Asio Socket) where
  -- The server that Start has asked for a start: the handler is its only one.
  abbrev pub asked : UdpServer Socket → Service → World (UdpServer Socket)
  asked s service = record {
    object = submit UdpServer.start_handler (record s { pending = [] });
    service = service;
  }

  -- The server of main, with the endpoint that it multicasts to.
  abbrev pub made_for : Bytes → Socket → Endpoint → InternetProtocol × Text → ℕ → UdpServer Socket
  made_for id socket unset h port = record (of_port asio id false socket unset 0 ipv4) {
    multicast_endpoint = record { protocol = h.0; address = h.1; port = unsigned_short port };
  }

  pub start_multicast_asks :
      (id : Bytes) (socket : Socket) (unset : Endpoint) (address : Text) (port : ℕ)
      (h : InternetProtocol × Text)
      → asio.make_address address ≡ some h
      → start_multicast asio no_overrides address port (of_port asio id false socket unset 0 ipv4)
        ≡ ok true (submit UdpServer.start_handler (made_for id socket unset h port))
  unfolding start_multicast start_multicast_at start of_port
  start_multicast_asks id socket unset address port h valid = ground (arith, valid)

  -- From there the handlers have their turns, and the lines are read.
  pub broadcasts_on-asked :
      (id : Bytes) (socket : Socket) (unset : Endpoint) (address : Text) (port : ℕ)
      (cs : List Completion) (inputs : List (Input Socket)) (closing : List Completion)
      (moves : List Move) (service : Service) (h : InternetProtocol × Text)
      → asio.make_address address ≡ some h
      → broadcasts_on asio address port
          (of_port asio id false socket unset 0 ipv4)
          cs
          inputs
          closing
          moves
          service
        ≡ (let w = turns (oldest asio) cs (asked (made_for id socket unset h port) service) in
            finish (oldest asio) closing moves w.service (serve asio inputs w.object))
  unfolding broadcasts_on of_port
  broadcasts_on-asked id socket unset address port cs inputs closing moves service h valid =
      ap
        (λ (o : Outcome (UdpServer Socket) Bool).
          elim o as (λ _. Option (Outcome (World (UdpServer Socket)) (Unit {0}))) [
            | throw x s ↦ some (throw x (record { object = s; service = service }))
            | ok done s ↦
                let w = turns (oldest asio) cs (record { object = s; service = service }) in
                finish (oldest asio) closing moves w.service (serve asio inputs w.object)
          ])
        (start_multicast_asks id socket unset address port h valid)
