-- ===== src/Programs/ClientEnding.antt =====
-- client.cpp when the calls of asio succeed: what it hears, and that it ends.
use kernel_udp_tcp.Prelude.{
  ℕ, ◌%◌, ◌^◌, ◌≡◌, refl, ap, sym, subst, ◌∙◌, true, false, not, if-true, List, [], ◌∷◌, Option,
  none, some, length, All, Text, arith,
}
use kernel_udp_tcp.Asio.{Asio, Executor, Bytes, Endpoint, InternetProtocol, operation_aborted}
use kernel_udp_tcp.Asio.Action.{Outcome, ok, skip, ok->>=}
use kernel_udp_tcp.Asio.Success.{Succeeds}
use kernel_udp_tcp.Service.Lifecycle
use kernel_udp_tcp.Service.Lifecycle.{Move, runs, leaves}
use kernel_udp_tcp.UdpClient.{
  UdpClient, Task, disconnect_handler, of_address, connect_handler, submit, is_positive,
  on_connected, on_joined, on_disconnected,
}
use kernel_udp_tcp.UdpClient.Connection.{
  is_empty, run_connect, connect_async, run_disconnect, disconnect,
}
use kernel_udp_tcp.UdpClient.Step.{Completion, run_task}
use kernel_udp_tcp.Programs.Turns.{World, settled, taken, turn, turns, finish}
use kernel_udp_tcp.Programs.MulticastClient.{multicast_client}
use kernel_udp_tcp.Programs.ClientLoop.{Round}
use kernel_udp_tcp.Programs.Connecting.{run_connect-Listening}
use kernel_udp_tcp.Programs.ClientMain.{handle, oldest, listen, set_up, listens_on, main}
use kernel_udp_tcp.Programs.Going.{going, gone, start_goes, stop_goes}
use kernel_udp_tcp.Programs.Listening.{Datagram, heard}
use kernel_udp_tcp.Programs.Leaving.{Typed, came, between, takes, listen-heard}

module _ {Socket : Type 0} (asio : Asio Socket) (multicast : Text) where
  turn_connects :
      (c : Completion) (s u : UdpClient Socket)
      → run_connect asio (multicast_client asio false multicast) (record s { pending = [] })
        ≡ ok tt u
      → turns
          (oldest asio multicast false)
          (c ∷ [])
          (record { object = submit connect_handler (record s { pending = [] }); service = going })
        ≡ record { object = u; service = going }
  unfolding turns turn taken handle settled run_task
  turn_connects c s u e = ap (λ o. settled o going) e

  -- The handler of DisconnectAsync finds the client disconnected.
  turn_idle :
      (c : Completion) (t : UdpClient Socket) (x : Executor)
      → t.connected ≡ false
      → t.pending ≡ (x, disconnect_handler) ∷ []
      → turns (oldest asio multicast true) (c ∷ []) (record { object = t; service = going })
        ≡ record { object = record t { pending = [] }; service = going }
  unfolding turns turn taken handle settled run_task run_disconnect disconnect
  turn_idle c t x off posted =
      ap
        (λ (p : List (Executor × Task)).
          turns (oldest asio multicast true) (c ∷ [])
            (record { object = record t { pending = p }; service = going }))
        posted
      ∙ ap (λ o. settled o going)
          (ok->>= (disconnect asio (multicast_client asio true multicast)) (λ _. skip)
            (record t { pending = [] }) (if-true _ _ (ap not off)))

  finish_goes :
      (c : Completion) (more : List Move) (t : UdpClient Socket) (x : Executor)
      → t.connected ≡ false
      → t.pending ≡ (x, disconnect_handler) ∷ []
      → finish
          (oldest asio multicast true)
          (c ∷ [])
          (runs 0 ∷ leaves 0 ∷ more)
          going
          (some (ok tt t))
        ≡ some (ok tt (record { object = record t { pending = [] }; service = gone }))
  unfolding finish
  finish_goes c more t x off posted =
      ap
        (λ (w : World (UdpClient Socket)).
          elim (Lifecycle.stop (runs 0 ∷ leaves 0 ∷ more) w.service)
            as (λ _. Option (Outcome (World (UdpClient Socket)) (Unit {0}))) [
              | none ↦ none
              | some (done, service, rest) ↦
                  some (ok tt (record { object = w.object; service = service }))
            ])
        (turn_idle c t x off posted)
      ∙ ap
          (λ (o : Lifecycle.Outcome).
            elim o as (λ _. Option (Outcome (World (UdpClient Socket)) (Unit {0}))) [
              | none ↦ none
              | some (done, service, rest) ↦
                  some (ok tt (record { object = record t { pending = [] }; service = service }))
            ])
          (stop_goes more)

  module _ (IsClosed IsOpen : Socket → Type 0) (room : ℕ)
      (works : Succeeds asio IsClosed IsOpen room)
      (cancels : (k : Socket) → IsOpen k → IsOpen (asio.cancel k).0)
      (group : InternetProtocol × Text) (valid : asio.make_address multicast ≡ some group) where
    -- The program of client.cpp ends, and what it has called is onConnected, onJoinedMulticastGroup,
    -- then onReceived with every datagram that came before a line was read, with its sender and in
    -- the order of arrival, and last onDisconnected; it has counted the datagrams, its socket is
    -- closed, and the service is stopped. Every call of asio succeeds, cancel leaves a socket open,
    -- the addresses and the port are valid, the lines are neither empty nor a `!`, the datagrams are
    -- shorter than the buffer, and the thread of the service runs the start of the service, the
    -- connect before the lines are read, and after them the cancelled receive, the handler of
    -- DisconnectAsync and the stop.
    pub client_main_ends :
        (id : Bytes) (socket : Socket) (unset : Endpoint) (address : Text) (port : ℕ)
        (starting ending : List Move) (c d e : Completion) (lines : List (Text × List Datagram))
        (rounds : List (Round asio multicast)) (h : InternetProtocol × Text)
        → IsClosed socket
        → is_empty address ≡ false
        → asio.make_address address ≡ some h
        → is_positive port ≡ true
        → All (Typed room) lines
        → d.error ≡ some operation_aborted
        → (w : World (UdpClient Socket)) × (main asio multicast id socket unset address port
              (runs 0 ∷ starting)
              (c ∷ [])
              (between asio multicast lines)
              (takes asio multicast d ∷ rounds)
              (e ∷ [])
              (runs 0 ∷ leaves 0 ∷ ending)
            ≡ some (ok tt w))
          × (w.object.calls
              ≡ on_disconnected ∷ heard (came lines) (on_joined multicast ∷ on_connected ∷ []))
          × (w.object.datagrams_received ≡ length (came lines) % 2 ^ 64)
          × (w.object.connected ≡ false)
          × IsClosed w.object.socket
          × (w.object.pending ≡ [])
          × (w.service.started ≡ false)
    unfolding main listens_on connect_async
    client_main_ends id socket unset address port starting ending c d e lines rounds h closed named
          reached positive typed cut =
        let s = set_up asio multicast (of_address id false socket unset address port) in
        let (t, connected, listens, calls, zeroed, on_open) =
          run_connect-Listening asio IsClosed IsOpen room works false multicast group valid s
            (record {
              host = h;
              named = named;
              valid = reached;
              port = positive;
              down = refl;
              free = refl;
              idle = refl;
            })
            closed in
        let shut = works.closes _ (cancels _ (cancels _ on_open)) in
        let (u, run, off, all, total, socket_of, x, posted) =
          listen-heard asio multicast room lines d rounds t listens (omega (arith, zeroed)) typed
            cut shut.0 in
        (
          record { object = record u { pending = [] }; service = gone },
          ap goes (start_goes starting)
              ∙ ap
                  (λ (w : World (UdpClient Socket)).
                    finish (oldest asio multicast true) (e ∷ []) (runs 0 ∷ leaves 0 ∷ ending)
                      w.service
                      (listen asio multicast (between asio multicast lines)
                        (takes asio multicast d ∷ rounds) w.object))
                  (turn_connects c s t connected)
              ∙ ap (finish (oldest asio multicast true) (e ∷ []) (runs 0 ∷ leaves 0 ∷ ending) going)
                  run
              ∙ finish_goes e ending u x off posted,
          all ∙ ap (λ l. on_disconnected ∷ heard (came lines) l) calls,
          omega (arith, total, zeroed),
          off,
          subst IsClosed (sym socket_of) shut.1,
          refl,
          refl,
        )
      where
        goes : Lifecycle.Outcome → Option (Outcome (World (UdpClient Socket)) (Unit {0}))
        goes none = none
        goes (some (done, service, rest)) =
            listens_on asio multicast (of_address id false socket unset address port) (c ∷ [])
              (between asio multicast lines) (takes asio multicast d ∷ rounds) (e ∷ [])
              (runs 0 ∷ leaves 0 ∷ ending) service
