-- ===== src/Programs/NoConnection.antt =====
-- client.cpp when the socket of the client cannot be opened and bound.
use kernel_udp_tcp.Prelude.{
  ℕ, ◌≡◌, refl, ap, subst, ◌∙◌, true, false, List, ◌∷◌, Option, none, some, All, Text,
}
use kernel_udp_tcp.Asio.{Asio, Bytes, Endpoint, ErrorCode, InternetProtocol, unsigned_short}
use kernel_udp_tcp.Asio.Action.{Outcome, throw, state}
use kernel_udp_tcp.Service.{Service, of_threads}
use kernel_udp_tcp.Service.Thread.{is_not_connected}
use kernel_udp_tcp.Service.Lifecycle
use kernel_udp_tcp.Service.Lifecycle.{Move}
use kernel_udp_tcp.Service.Single.{Single, start-Single}
use kernel_udp_tcp.UdpClient.{UdpClient, connect_handler, submit, of_address, is_positive}
use kernel_udp_tcp.UdpClient.Connection.{is_empty, open_and_bind, connect_async}
use kernel_udp_tcp.UdpClient.Step.{Completion, run_task}
use kernel_udp_tcp.UdpClient.Stuck.Failure.{run_connect_throws}
use kernel_udp_tcp.Programs.Turns.{World, turns, finish, Over, turns-Over, finish-Over}
use kernel_udp_tcp.Programs.MulticastClient.{multicast_client}
use kernel_udp_tcp.Programs.ClientLoop.{Round}
use kernel_udp_tcp.Programs.ClientMain.{handle, oldest, set_up, listens_on, main}
use kernel_udp_tcp.Programs.Disconnected.{IsDown, Line, Quiet, open_and_bind-IsDown, listen-IsDown}

module _ {Socket : Type 0} (asio : Asio Socket) (multicast : Text) where
  -- The client that main has asked to connect.
  abbrev asked : Bytes → Socket → Endpoint → Text → ℕ → UdpClient Socket
  asked id socket unset address port =
      submit connect_handler (set_up asio multicast (of_address id false socket unset address port))

  -- The endpoint that it connects to.
  abbrev target : InternetProtocol × Text → ℕ → Endpoint
  target h port = record { protocol = h.0; address = h.1; port = unsigned_short port }

  -- It is ready, and its connect handler is the oldest, which throws.
  oldest-throw :
      (id : Bytes) (socket : Socket) (unset : Endpoint) (address : Text) (port : ℕ) (c : Completion)
      (h : InternetProtocol × Text) (e : ErrorCode) (u : UdpClient Socket)
      → is_empty address ≡ false
      → is_positive port ≡ true
      → asio.make_address address ≡ some h
      → open_and_bind asio
          (multicast_client asio false multicast)
          (record (set_up asio multicast (of_address id false socket unset address port)) {
            endpoint = target h port;
          })
        ≡ throw e u
      → oldest asio multicast false c (asked id socket unset address port) ≡ some (throw e u)
  unfolding handle run_task
  oldest-throw id socket unset address port c h e u named positive valid fails = ap some (
      run_connect_throws asio (multicast_client asio false multicast)
        (set_up asio multicast (of_address id false socket unset address port)) u
        (record {
          host = h;
          named = named;
          valid = valid;
          port = positive;
          down = refl;
          free = refl;
          idle = refl;
        })
        e fails)

  -- If the client of client.cpp cannot open and bind its socket, and the error is not
  -- not_connected, the program never ends, whatever lines are typed and whatever asio does: the
  -- error ends the one thread of the service, and Stop of the service waits for ever. The address
  -- and the port are valid, the connect handler has its turn before the lines are read, and no
  -- other thread does anything.
  pub no_connection_hangs :
      (id : Bytes) (socket : Socket) (unset : Endpoint) (address : Text) (port : ℕ)
      (starting : List Move) (c : Completion) (cs closing : List Completion)
      (lines : List (Line asio multicast)) (rounds : List (Round asio multicast))
      (ending : List Move) (h : InternetProtocol × Text) (e : ErrorCode) (u : UdpClient Socket)
      → is_empty address ≡ false
      → is_positive port ≡ true
      → asio.make_address address ≡ some h
      → open_and_bind asio
          (multicast_client asio false multicast)
          (record (set_up asio multicast (of_address id false socket unset address port)) {
            endpoint = target h port;
          })
        ≡ throw e u
      → is_not_connected e ≡ false
      → All (Quiet asio multicast) lines
      → main asio multicast id socket unset address port starting
          (c ∷ cs)
          lines
          rounds
          closing
          ending
        ≡ none
  unfolding main listens_on connect_async
  no_connection_hangs id socket unset address port starting c cs closing lines rounds ending h e u
        named positive valid fails other quiet =
      go (Lifecycle.start false starting (of_threads 1 false)) refl
    where
      listens : Service → Option (Outcome (World (UdpClient Socket)) (Unit {0}))
      listens service =
          listens_on asio multicast (of_address id false socket unset address port) (c ∷ cs) lines
            rounds closing ending service

      hangs : (service : Service) → Single service → service.started ≡ true → listens service ≡ none
      hangs service single up =
          let w =
            turns (oldest asio multicast false) (c ∷ cs)
              (record { object = asked id socket unset address port; service = service }) in
          let over : Over IsDown w =
            turns-Over IsDown (oldest asio multicast false) c cs
              (asked id socket unset address port) u service e
              (oldest-throw id socket unset address port c h e u named positive valid fails) refl
              (subst (λ o. IsDown (state o)) fails
                (open_and_bind-IsDown asio (multicast_client asio false multicast) _ refl))
              other single up in
          let (t, done, still) =
            listen-IsDown asio multicast lines rounds w.object over.left quiet in
          ap (finish (oldest asio multicast true) closing ending w.service) done
          ∙ finish-Over IsDown (oldest asio multicast true) closing ending
              (record { object = t; service = w.service })
              (record { left = still; single = over.single; up = over.up; over = over.over })

      go :
          (o : Lifecycle.Outcome)
          → Lifecycle.start false starting (of_threads 1 false) ≡ o
          → elim o as (λ _. Option (Outcome (World (UdpClient Socket)) (Unit {0}))) [
            | none ↦ none
            | some (done, service, rest) ↦ listens service
          ]
            ≡ none
      go none x = refl
      go (some (done, service, rest)) x =
          let (single, up) = start-Single starting done service rest x in hangs service single up
