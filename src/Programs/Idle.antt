-- ===== src/Programs/Idle.antt =====
-- The loop of server.cpp on a server that is not started.
use kernel_udp_tcp.Prelude.{
  ◌≡◌, refl, ap, ◌∙◌, Bool, true, false, Option, none, some, List, [], ◌∷◌, length, arith, if-false,
  All,
}
use kernel_udp_tcp.Asio.{Asio, ErrorCode, SocketOption, reuse_address, reuse_port}
use kernel_udp_tcp.Asio.Action.{
  Outcome, ok, throw, ◌>>=◌, ◌>>◌, skip, state, when, ok->>=, state->>=,
}
use kernel_udp_tcp.UdpServer.{UdpServer, no_overrides, on_socket}
use kernel_udp_tcp.UdpServer.Lifecycle.{open_and_bind, stop, restart}
use kernel_udp_tcp.UdpServer.Send.{multicast}
use kernel_udp_tcp.Programs.MulticastServer.{
  Input, Command, quits, restarts, broadcasts, command, broadcast_loop, serve,
}
use kernel_udp_tcp.Programs.Broadcast.{multicast_idle}

abbrev pub IsOff : {Socket : Type 0} → UdpServer Socket → Type 0
IsOff s = s.started ≡ false

-- A line before which no other thread does anything.
abbrev pub Quiet : {Socket : Type 0} → Input Socket → Type 0
Quiet {Socket} i = (s : UdpServer Socket) → i.meanwhile s ≡ s

module _ {Socket : Type 0} (asio : Asio Socket) where
  on_socket-IsOff :
      (f : Socket → Socket × Option ErrorCode) (s : UdpServer Socket)
      → IsOff s
      → IsOff (state (on_socket f s))
  on_socket-IsOff f s off = go (f s.socket)
    where
      go :
          (r : Socket × Option ErrorCode)
          → IsOff (
              state {S = UdpServer Socket} {A = Unit {0}} (elim (r.1) [
                | none ↦ ok tt (record s { socket = r.0 })
                | some e ↦ throw e (record s { socket = r.0 })
              ]))
      go (k, none) = off
      go (k, some e) = off

  when-IsOff :
      (b : Bool) (o : SocketOption) (s : UdpServer Socket)
      → IsOff s
      → IsOff (state (when b (on_socket (asio.set_option o)) s))
  when-IsOff true o s off = on_socket-IsOff (asio.set_option o) s off
  when-IsOff false o s off = off

  -- The first part of the start handler does not mark the server as started.
  pub open_and_bind-IsOff :
      (s : UdpServer Socket) → IsOff s → IsOff (state (open_and_bind asio no_overrides s))
  unfolding open_and_bind
  open_and_bind-IsOff s off =
      let set_port = when s.option_reuse_port (on_socket (asio.set_option (reuse_port true))) in
      let bind_it = on_socket (asio.bind s.endpoint) in
      state->>= IsOff (on_socket (asio.open_socket s.endpoint.protocol)) _ s
        (on_socket-IsOff (asio.open_socket s.endpoint.protocol) s off)
        λ _ t ht.
          state->>= IsOff
            (when s.option_reuse_address (on_socket (asio.set_option (reuse_address true))))
            (λ _. set_port >> bind_it) t
            (when-IsOff s.option_reuse_address (reuse_address true) t ht)
            λ _ u hu.
              state->>= IsOff set_port (λ _. bind_it) u
                (when-IsOff s.option_reuse_port (reuse_port true) u hu)
                λ _ v hv. on_socket-IsOff (asio.bind s.endpoint) v hv

  -- A `!` finds nothing to restart.
  restart_off :
      (rounds : List (UdpServer Socket → UdpServer Socket)) (s : UdpServer Socket)
      → IsOff s
      → restart asio no_overrides rounds s ≡ some (ok false s)
  unfolding restart stop
  restart_off rounds s off = ground arith

  -- What one line does, with the rest of the loop.
  abbrev line_done :
      Command
      → List (UdpServer Socket → UdpServer Socket)
      → (UdpServer Socket → Option (Outcome (UdpServer Socket) (Unit {0})))
      → UdpServer Socket
      → Option (Outcome (UdpServer Socket) (Unit {0}))
  line_done c rounds go_on s = elim c [
    | quits ↦ some (ok tt s)
    | restarts ↦ elim (restart asio no_overrides rounds s) [
      | none ↦ none
      | some (ok done u) ↦ go_on u
      | some (throw e u) ↦ some (throw e u)
    ]
    | broadcasts bytes ↦ elim (multicast asio no_overrides (some bytes) (length bytes) s) [
      | ok sent u ↦ go_on u
      | throw e u ↦ some (throw e u)
    ]
  ]

  line_off :
      (c : Command) (rounds : List (UdpServer Socket → UdpServer Socket))
      (go_on : UdpServer Socket → Option (Outcome (UdpServer Socket) (Unit {0})))
      (s : UdpServer Socket)
      → IsOff s
      → go_on s ≡ some (ok tt s)
      → line_done c rounds go_on s ≡ some (ok tt s)
  line_off quits rounds go_on s off e = refl
  line_off restarts rounds go_on s off e = ground (arith, restart_off rounds s off)
  line_off (broadcasts bytes) rounds go_on s off e = ground (arith, multicast_idle asio bytes s off)

  pub loop_off :
      (inputs : List (Input Socket)) (s : UdpServer Socket)
      → IsOff s
      → All Quiet inputs
      → broadcast_loop asio inputs s ≡ some (ok tt s)
  unfolding broadcast_loop
  loop_off [] s off h = refl
  loop_off (i ∷ rest) s off h =
      ap (line_done (command i.line) i.rounds (broadcast_loop asio rest)) (h.0 s)
      ∙ line_off (command i.line) i.rounds (broadcast_loop asio rest) s off
          (loop_off rest s off h.1)

  stop_off : (s : UdpServer Socket) → IsOff s → (stop asio no_overrides >>= λ _. skip) s ≡ ok tt s
  unfolding stop
  stop_off s off = ok->>= (stop asio no_overrides) (λ _. skip) s (if-false _ _ off)

  pub serve_off :
      (inputs : List (Input Socket)) (s : UdpServer Socket)
      → IsOff s
      → All Quiet inputs
      → serve asio inputs s ≡ some (ok tt s)
  unfolding serve
  serve_off inputs s off h =
      ap
        (λ o. elim o as (λ _. Option (Outcome (UdpServer Socket) (Unit {0}))) [
          | none ↦ none
          | some (ok done t) ↦ some ((stop asio no_overrides >>= λ _. skip) t)
          | some (throw e t) ↦ some (throw e t)
        ])
        (loop_off inputs s off h)
      ∙ ap some (stop_off s off)
