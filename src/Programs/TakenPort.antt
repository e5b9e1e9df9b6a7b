-- ===== src/Programs/TakenPort.antt =====
-- server.cpp when the socket of the server cannot be opened and bound, as on a port that is in use.
use kernel_udp_tcp.Prelude.{
  ℕ, ◌≡◌, refl, ap, subst, ◌∙◌, true, false, Option, none, some, List, [], ◌∷◌, Text, All,
}
use kernel_udp_tcp.Asio.{Asio, Bytes, Endpoint, ErrorCode, InternetProtocol, ipv4}
use kernel_udp_tcp.Asio.Action.{Outcome, throw, state}
use kernel_udp_tcp.Service.{Service, of_threads}
use kernel_udp_tcp.Service.Thread.{is_not_connected}
use kernel_udp_tcp.Service.Lifecycle
use kernel_udp_tcp.Service.Lifecycle.{
  Move, runs, leaves, dies, outside, act, is_running, none_running, run_one, await, requested,
  succeeds,
}
use kernel_udp_tcp.UdpServer
use kernel_udp_tcp.UdpServer.{UdpServer, no_overrides, submit, of_port}
use kernel_udp_tcp.UdpServer.Lifecycle.{open_and_bind}
use kernel_udp_tcp.UdpServer.Stuck.Failure.{throw-run_start}
use kernel_udp_tcp.UdpServer.Step.{Completion, run_task}
use kernel_udp_tcp.Programs.MulticastServer.{Input}
use kernel_udp_tcp.Programs.Turns.{World, turns, finish, Over, turns-Over, finish-Over}
use kernel_udp_tcp.Programs.ServerMain.{handle, oldest, broadcasts_on, main}
use kernel_udp_tcp.Service.Single.{Single, start-Single}
use kernel_udp_tcp.Programs.Asked.{made_for, asked, broadcasts_on-asked}
use kernel_udp_tcp.Programs.Idle.{IsOff, open_and_bind-IsOff, Quiet, serve_off}

module _ {Socket : Type 0} (asio : Asio Socket) where
  -- The start handler is the oldest, and throws.
  oldest-throw :
      (c : Completion) (s u : UdpServer Socket) (e : ErrorCode)
      → IsOff s
      → open_and_bind asio no_overrides (record s { pending = [] }) ≡ throw e u
      → oldest asio c (submit UdpServer.start_handler (record s { pending = [] }))
        ≡ some (throw e u)
  unfolding handle run_task
  oldest-throw c s u e off fails =
      ap some (throw-run_start asio no_overrides (record s { pending = [] }) u e off fails)

  broadcasts_hang :
      (id : Bytes) (socket : Socket) (unset : Endpoint) (address : Text) (port : ℕ) (c : Completion)
      (cs closing : List Completion) (inputs : List (Input Socket)) (ending : List Move)
      (service : Service) (h : InternetProtocol × Text) (e : ErrorCode) (u : UdpServer Socket)
      → asio.make_address address ≡ some h
      → open_and_bind asio no_overrides (made_for asio id socket unset h port) ≡ throw e u
      → is_not_connected e ≡ false
      → All Quiet inputs
      → Single service
      → service.started ≡ true
      → broadcasts_on asio address port
          (of_port asio id false socket unset 0 ipv4)
          (c ∷ cs)
          inputs
          closing
          ending
          service
        ≡ none
  unfolding broadcasts_on of_port
  broadcasts_hang id socket unset address port c cs closing inputs ending service h e u valid fails
        other quiet single up =
      broadcasts_on-asked asio id socket unset address port (c ∷ cs) inputs closing ending service h
        valid
      ∙ ap (finish (oldest asio) closing ending w.service)
          (serve_off asio inputs w.object over.left quiet)
      ∙ finish-Over IsOff (oldest asio) closing ending w over
    where
      made : UdpServer Socket
      made = made_for asio id socket unset h port

      w : World (UdpServer Socket)
      w = turns (oldest asio) (c ∷ cs) (asked asio made service)

      over : Over IsOff w
      over =
          turns-Over IsOff (oldest asio) c cs (asked asio made service).object u service e
            (oldest-throw c made u e refl fails) refl
            (subst (λ o. IsOff (state o)) fails (open_and_bind-IsOff asio made refl)) other single
            up

  -- If the server of server.cpp cannot open and bind its socket, and the error is not not_connected,
  -- the program never ends, whatever lines are typed and whatever asio does: the error ends the
  -- one thread of the service, and Stop of the service waits for ever. The address is valid, and
  -- the start handler has its turn before the lines are read.
  pub taken_port_hangs :
      (id : Bytes) (socket : Socket) (unset : Endpoint) (address : Text) (port : ℕ)
      (starting : List Move) (c : Completion) (cs closing : List Completion)
      (inputs : List (Input Socket)) (ending : List Move) (h : InternetProtocol × Text)
      (x : ErrorCode) (u : UdpServer Socket)
      → asio.make_address address ≡ some h
      → open_and_bind asio no_overrides (made_for asio id socket unset h port) ≡ throw x u
      → is_not_connected x ≡ false
      → All Quiet inputs
      → main asio id socket unset address port starting (c ∷ cs) inputs closing ending ≡ none
  unfolding main
  taken_port_hangs id socket unset address port starting c cs closing inputs ending h x u valid
        fails other quiet =
      go (Lifecycle.start false starting (of_threads 1 false)) refl
    where
      go :
          (o : Lifecycle.Outcome)
          → Lifecycle.start false starting (of_threads 1 false) ≡ o
          → elim o as (λ _. Option (Outcome (World (UdpServer Socket)) (Unit {0}))) [
            | none ↦ none
            | some (done, service, rest) ↦
                broadcasts_on asio address port
                  (of_port asio id false socket unset 0 ipv4)
                  (c ∷ cs)
                  inputs
                  closing
                  ending
                  service
          ]
            ≡ none
      go none e = refl
      go (some (done, service, rest)) e =
          let (single, up) = start-Single starting done service rest e in
          broadcasts_hang id socket unset address port c cs closing inputs ending service h x u
            valid fails other quiet single up
