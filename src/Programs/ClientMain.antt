-- ===== src/Programs/ClientMain.antt =====
-- The main function of client.cpp, from service->Start() on: the client, whose handlers the one
-- thread of the service runs, the loop over the lines, DisconnectAndStop, and the stop of the
-- service.
use kernel_udp_tcp.Prelude.{ℕ, Bool, true, false, Option, none, some, List, [], ◌∷◌}
use kernel_udp_tcp.Asio.{Asio, Bytes, Endpoint, Executor, Text}
use kernel_udp_tcp.Asio.Action.{Outcome, ok, throw}
use kernel_udp_tcp.Service.{Service, of_threads}
use kernel_udp_tcp.Service.Lifecycle
use kernel_udp_tcp.Service.Lifecycle.{Move}
use kernel_udp_tcp.UdpClient.{UdpClient, Task, of_address}
use kernel_udp_tcp.UdpClient.Connection.{connect_async}
use kernel_udp_tcp.UdpClient.Step.{Completion, run_task}
use kernel_udp_tcp.Programs.Turns.{World, turns, finish}
use kernel_udp_tcp.Programs.MulticastClient.{multicast_client}
use kernel_udp_tcp.Programs.ClientLoop.{Round, client_loop, disconnect_and_stop}

module _ {Socket : Type 0} (asio : Asio Socket) (multicast : Text) where
  -- The oldest handler that asio holds for the client is run, with what asio tells it; `stop`
  -- is _stop, which DisconnectAndStop sets.
  unfoldable pub handle :
      Bool
      → Completion
      → List (Executor × Task)
      → UdpClient Socket
      → Option (Outcome (UdpClient Socket) (Unit {0}))
  unfolding run_task
  handle stop c [] s = none
  handle stop c ((x, t) ∷ rest) s =
      some (run_task asio (multicast_client asio stop multicast) c t (record s { pending = rest }))

  abbrev pub oldest :
      Bool → Completion → UdpClient Socket → Option (Outcome (UdpClient Socket) (Unit {0}))
  oldest stop c s = handle stop c s.pending s

  -- The loop, and DisconnectAndStop after it.
  unfoldable pub listen :
      List (Text × Round asio multicast × List (Round asio multicast))
      → List (Round asio multicast)
      → UdpClient Socket
      → Option (Outcome (UdpClient Socket) (Unit {0}))
  unfolding client_loop disconnect_and_stop
  listen lines rounds s = elim (client_loop asio multicast lines s) [
    | none ↦ none
    | some (ok done t) ↦ disconnect_and_stop asio multicast rounds t
    | some (throw e t) ↦ some (throw e t)
  ]

  -- SetupMulticast(true)
  abbrev pub set_up : UdpClient Socket → UdpClient Socket
  set_up s = record s { option_reuse_address = true; option_multicast = true }

  -- From where the service has been started: the client is made and asked to connect, its handlers
  -- have turns, and the lines are read.
  unfoldable pub listens_on :
      UdpClient Socket
      → List Completion
      → List (Text × Round asio multicast × List (Round asio multicast))
      → List (Round asio multicast)
      → List Completion
      → List Move
      → Service
      → Option (Outcome (World (UdpClient Socket)) (Unit {0}))
  unfolding handle finish turns listen connect_async
  listens_on made cs lines rounds closing moves service =
      elim (connect_async asio (multicast_client asio false multicast) (set_up made)) [
        | throw e s ↦ some (throw e (record { object = s; service = service }))
        | ok done s ↦
            let w = turns (oldest false) cs (record { object = s; service = service }) in
            finish (oldest true) closing moves w.service (listen lines rounds w.object)
      ]

  -- The whole, with the id and the fresh socket of the client. `starting` and `ending` are what the
  -- thread does while Start and Stop of the service wait, and `cs` and `closing` what asio tells the
  -- handlers of the client before the lines are read and after DisconnectAndStop; `none` means that
  -- a wait is not over.
  unfoldable pub main :
      Bytes
      → Socket
      → Endpoint
      → Text
      → ℕ
      → List Move
      → List Completion
      → List (Text × Round asio multicast × List (Round asio multicast))
      → List (Round asio multicast)
      → List Completion
      → List Move
      → Option (Outcome (World (UdpClient Socket)) (Unit {0}))
  unfolding listens_on of_threads
  main id socket unset address port starting cs lines rounds closing ending =
      elim (Lifecycle.start false starting (of_threads 1 false)) [
        | none ↦ none
        | some (done, service, rest) ↦
            listens_on (of_address id false socket unset address port) cs lines rounds closing
              ending service
      ]
