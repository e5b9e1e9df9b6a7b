-- ===== src/Programs/ServerMain.antt =====
-- The main function of server.cpp, from service->Start() on: the server, whose handlers the one
-- thread of the service runs, the loop over the lines, and both stops.
use kernel_udp_tcp.Prelude.{ℕ, false, Option, none, some, List, [], ◌∷◌}
use kernel_udp_tcp.Asio.{Asio, Bytes, Endpoint, Executor, Text, ipv4}
use kernel_udp_tcp.Asio.Action.{Outcome, ok, throw}
use kernel_udp_tcp.Service.{Service, of_threads}
use kernel_udp_tcp.Service.Lifecycle
use kernel_udp_tcp.Service.Lifecycle.{Move}
use kernel_udp_tcp.UdpServer.{UdpServer, Task, of_port, no_overrides}
use kernel_udp_tcp.UdpServer.Lifecycle.{start_multicast}
use kernel_udp_tcp.UdpServer.Step.{Completion, run_task}
use kernel_udp_tcp.Programs.Turns.{World, turns, finish}
use kernel_udp_tcp.Programs.MulticastServer.{Input, serve}

module _ {Socket : Type 0} (asio : Asio Socket) where
  -- The oldest handler that asio holds for the server is run, with what asio tells it.
  unfoldable pub handle :
      Completion
      → List (Executor × Task)
      → UdpServer Socket
      → Option (Outcome (UdpServer Socket) (Unit {0}))
  unfolding run_task
  handle c [] s = none
  handle c ((x, t) ∷ rest) s = some (run_task asio no_overrides c t (record s { pending = rest }))

  abbrev pub oldest : Completion → UdpServer Socket → Option (Outcome (UdpServer Socket) (Unit {0}))
  oldest c s = handle c s.pending s

  -- From where the service has been started: the server is made and started, its handlers have turns,
  -- and the lines are read.
  unfoldable pub broadcasts_on :
      Text
      → ℕ
      → UdpServer Socket
      → List Completion
      → List (Input Socket)
      → List Completion
      → List Move
      → Service
      → Option (Outcome (World (UdpServer Socket)) (Unit {0}))
  unfolding handle finish turns serve start_multicast
  broadcasts_on address port made cs inputs closing moves service =
      elim (start_multicast asio no_overrides address port made) [
        | throw e s ↦ some (throw e (record { object = s; service = service }))
        | ok done s ↦
            let w = turns oldest cs (record { object = s; service = service }) in
            finish oldest closing moves w.service (serve asio inputs w.object)
      ]

  -- The whole, with the id and the fresh socket of the server. `starting` and `ending` are what the
  -- thread does while Start and Stop of the service wait, and `cs` and `closing` what asio tells the
  -- server's handlers before the lines are read and after them; `none` means that a wait is not over.
  unfoldable pub main :
      Bytes
      → Socket
      → Endpoint
      → Text
      → ℕ
      → List Move
      → List Completion
      → List (Input Socket)
      → List Completion
      → List Move
      → Option (Outcome (World (UdpServer Socket)) (Unit {0}))
  unfolding broadcasts_on of_threads of_port
  main id socket unset address port starting cs inputs closing ending =
      elim (Lifecycle.start false starting (of_threads 1 false)) [
        | none ↦ none
        | some (done, service, rest) ↦
            broadcasts_on address port (of_port asio id false socket unset 0 ipv4) cs inputs closing
              ending service
      ]
