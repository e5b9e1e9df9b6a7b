-- ===== src/Programs/Together.antt =====
-- The two programs as a whole: server.cpp and client.cpp from the start of main to its end, with a
-- network that loses nothing and keeps the order between them.
use kernel_udp_tcp.Prelude.{
  ℕ, ◌%◌, ◌^◌, ◌≡◌, ap, sym, ◌∙◌, true, false, List, [], ◌∷◌, ◌++◌, Option, none, some, length, All,
  Text,
}
use kernel_udp_tcp.Asio.{Asio, Bytes, Endpoint, InternetProtocol, operation_aborted}
use kernel_udp_tcp.Asio.Action.{Outcome, ok, state}
use kernel_udp_tcp.Asio.Success.{Succeeds}
use kernel_udp_tcp.Service.Lifecycle.{Move, runs, leaves}
use kernel_udp_tcp.UdpServer.{UdpServer}
use kernel_udp_tcp.UdpServer.Step as ServerStep
use kernel_udp_tcp.UdpClient.{UdpClient, is_positive, on_connected, on_joined, on_disconnected}
use kernel_udp_tcp.UdpClient.Connection.{is_empty}
use kernel_udp_tcp.UdpClient.Step as ClientStep
use kernel_udp_tcp.Programs.Turns.{World}
use kernel_udp_tcp.Programs.Broadcast.{IsMessage, all_typed}
use kernel_udp_tcp.Programs.ServerMain as ServerMain
use kernel_udp_tcp.Programs.Asked.{made_for}
use kernel_udp_tcp.Programs.Ending.{Sending, main_ends}
use kernel_udp_tcp.Programs.ClientLoop.{Round}
use kernel_udp_tcp.Programs.ClientMain as ClientMain
use kernel_udp_tcp.Programs.Listening.{Datagram, heard}
use kernel_udp_tcp.Programs.Leaving.{Typed, came, between, takes}
use kernel_udp_tcp.Programs.ClientEnding.{client_main_ends}
use kernel_udp_tcp.Programs.Network.{
  Sends, datagrams, from, from-datagrams, length-datagrams, sent-logged,
}

-- The server's socket, which has sent nothing when it has just been opened; that it is closed does
-- not change what it has sent.
module _ {Socket : Type 0} (asio : Asio Socket) (sent : Socket → List Datagram)
    (sends : Sends asio sent) (IsClosed IsNew IsOpen : Socket → Type 0) (room : ℕ)
    (works : Succeeds asio IsClosed IsNew room)
    (sending : Sending asio IsNew IsOpen (λ b e k. (asio.send_to b e k).0))
    (new : (k : Socket) → IsNew k → sent k ≡ [])
    (remembers : (k : Socket) → sent (asio.close k).0 ≡ sent k) where
  -- What server.cpp has sent when it ends, as it comes from a sender; it has stopped then.
  sent_by_main :
      (sender : Endpoint) (id : Bytes) (socket : Socket) (unset : Endpoint) (address : Text)
      (port : ℕ) (starting ending : List Move) (c x : ServerStep.Completion) (ls : List Text)
      (h : InternetProtocol × Text) (w : World (UdpServer Socket))
      → IsClosed socket
      → asio.make_address address ≡ some h
      → All IsMessage ls
      → ServerMain.main asio id socket unset address port
          (runs 0 ∷ starting)
          (c ∷ [])
          (all_typed ls)
          (x ∷ [])
          (runs 0 ∷ leaves 0 ∷ ending)
        ≡ some (ok tt w)
      → (from sender (sent w.object.socket) ≡ datagrams sender ls)
        × (w.object.started ≡ false)
        × (w.service.started ≡ false)
  sent_by_main sender id socket unset address port starting ending c x ls h w closed valid messages
        run =
      let (k, fresh, t, ran, logs, counted, off, idle, over) =
        main_ends asio IsClosed IsNew IsOpen room works (λ b e k. (asio.send_to b e k).0) sending id
          socket unset address port c x ls starting ending h closed valid messages in
      let same : w ≡ t =
        ap
          (λ (o : Option (Outcome (World (UdpServer Socket)) (Unit {0}))).
            elim o as (λ _. World (UdpServer Socket)) [ none ↦ w | some r ↦ state r ])
          (sym run ∙ ran) in
      let group = (made_for asio id socket unset h port).multicast_endpoint in
      (
        ap (from sender) (
              ap (λ (x : World (UdpServer Socket)). sent x.object.socket) same
              ∙ ap sent logs
              ∙ remembers _
              ∙ sent-logged asio sent sends group ls k
              ∙ ap (λ ds. ds ++ datagrams group ls) (new k fresh))
            ∙ from-datagrams sender group ls,
        ap (λ (x : World (UdpServer Socket)). x.object.started) same ∙ off,
        ap (λ (x : World (UdpServer Socket)). x.service.started) same ∙ over,
      )

  module _ {Remote : Type 0} (remote : Asio Remote) (IsShut IsListening : Remote → Type 0)
      (space : ℕ) (remote_works : Succeeds remote IsShut IsListening space)
      (cancels : (k : Remote) → IsListening k → IsListening (remote.cancel k).0) (multicast : Text)
      (group : InternetProtocol × Text) (valid : remote.make_address multicast ≡ some group) where
    -- If server.cpp has ended after lines that are messages, and between the lines of client.cpp
    -- the network has brought all that it sent, in the order of sending, then client.cpp ends too:
    -- it has called onConnected, onJoinedMulticastGroup, onReceived with each line behind the mark
    -- of the program, in the order of typing, and last onDisconnected, and has counted as many
    -- datagrams as there were lines. Every call of asio succeeds, the addresses and the port are
    -- valid, the lines that the client reads are neither empty nor a `!`, the datagrams are shorter
    -- than its buffer, and the thread of each service runs the handlers as they are posted, that of
    -- the cancelled receive first.
    pub whole_programs_lem :
        (sender : Endpoint) (id : Bytes) (socket : Socket) (unset : Endpoint) (address : Text)
        (port : ℕ) (starting ending : List Move) (c x : ServerStep.Completion) (ls : List Text)
        (h : InternetProtocol × Text) (w : World (UdpServer Socket)) (client_id : Bytes)
        (client_socket : Remote) (client_address : Text) (client_port : ℕ)
        (client_starting client_ending : List Move) (d e f : ClientStep.Completion)
        (lines : List (Text × List Datagram)) (rounds : List (Round remote multicast))
        (host : InternetProtocol × Text)
        → IsClosed socket
        → asio.make_address address ≡ some h
        → All IsMessage ls
        → ServerMain.main asio id socket unset address port
            (runs 0 ∷ starting)
            (c ∷ [])
            (all_typed ls)
            (x ∷ [])
            (runs 0 ∷ leaves 0 ∷ ending)
          ≡ some (ok tt w)
        → IsShut client_socket
        → is_empty client_address ≡ false
        → remote.make_address client_address ≡ some host
        → is_positive client_port ≡ true
        → All (Typed space) lines
        → came lines ≡ from sender (sent w.object.socket)
        → e.error ≡ some operation_aborted
        → (v : World (UdpClient Remote)) × (ClientMain.main remote multicast client_id client_socket
              unset client_address client_port
              (runs 0 ∷ client_starting)
              (d ∷ [])
              (between remote multicast lines)
              (takes remote multicast e ∷ rounds)
              (f ∷ [])
              (runs 0 ∷ leaves 0 ∷ client_ending)
            ≡ some (ok tt v))
          × (v.object.calls
              ≡ on_disconnected
                ∷ heard (datagrams sender ls) (on_joined multicast ∷ on_connected ∷ []))
          × (v.object.datagrams_received ≡ length ls % 2 ^ 64)
          × (w.object.started ≡ false)
          × (w.service.started ≡ false)
          × (v.object.connected ≡ false)
          × (v.service.started ≡ false)
    whole_programs_lem sender id socket unset address port starting ending c x ls h w client_id
          client_socket client_address client_port client_starting client_ending d e f lines rounds
          host closed address_valid messages run shut named reached positive typed brought cut =
        let (all, server_off, service_off) =
          sent_by_main sender id socket unset address port starting ending c x ls h w closed
            address_valid messages run in
        let carried = brought ∙ all in
        let (v, ran, calls, counted, down, closed_again, emptied, stopped) =
          client_main_ends remote multicast IsShut IsListening space remote_works cancels group
            valid client_id client_socket unset client_address client_port client_starting
            client_ending d e f lines rounds host shut named reached positive typed cut in
        (
          v,
          ran,
          calls
              ∙ ap (λ ds. on_disconnected ∷ heard ds (on_joined multicast ∷ on_connected ∷ []))
                  carried,
          counted ∙ ap (λ n. n % 2 ^ 64) (ap length carried ∙ length-datagrams sender ls),
          server_off,
          service_off,
          down,
          stopped,
        )
