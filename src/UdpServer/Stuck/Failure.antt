-- ===== src/UdpServer/Stuck/Failure.antt =====
-- What a failed Start of UDPServer leaves behind for good.
use kernel_udp_tcp.Prelude.{◌≡◌, subst, Bool, true, false, none, arith}
use kernel_udp_tcp.Asio.{
  Asio, OpenLaws, ErrorCode, SocketOption, already_open, reuse_address, reuse_port,
}
use kernel_udp_tcp.Asio.Action.{throw, ◌>>◌, state, when, state->>=}
use kernel_udp_tcp.UdpServer.{UdpServer, Overrides, on_socket}
use kernel_udp_tcp.UdpServer.Lifecycle.{open_and_bind, run_start}
use kernel_udp_tcp.UdpServer.Step.{Reach}
use kernel_udp_tcp.UdpServer.Stuck.{Stuck, on_socket-Stuck, start-Stuck, Reach-Stuck}

module _ {Socket : Type 0} (asio : Asio Socket) (on : Overrides Socket) where
  pub throw-run_start :
      (s t : UdpServer Socket) (e : ErrorCode)
      → s.started ≡ false
      → open_and_bind asio on s ≡ throw e t
      → run_start asio on s ≡ throw e t
  unfolding run_start
  throw-run_start s t e off h = ground arith

module _ {Socket : Type 0} (asio : Asio Socket) (on : Overrides Socket) (IsOpen : Socket → Type 0)
    (laws : OpenLaws asio IsOpen) where
  abbrev IsStuck : UdpServer Socket → Type 0
  IsStuck = Stuck asio on IsOpen laws

  option-Stuck :
      (b : Bool) (o : SocketOption) (s : UdpServer Socket)
      → IsStuck s
      → IsStuck (state (when b (on_socket (asio.set_option o)) s))
  option-Stuck true o s h =
      on_socket-Stuck asio on IsOpen laws (asio.set_option o) s (laws.option_keeps o) h
  option-Stuck false o s h = h

  -- The first part of the start handler opens the socket and never closes it.
  open_and_bind-Stuck :
      (s : UdpServer Socket)
      → s.started ≡ false
      → (asio.open_socket s.endpoint.protocol s.socket).1 ≡ none
      → IsStuck (state (open_and_bind asio on s))
  unfolding open_and_bind
  open_and_bind-Stuck s off opens =
      let set_address =
        when s.option_reuse_address (on_socket (asio.set_option (reuse_address true))) in
      let set_port = when s.option_reuse_port (on_socket (asio.set_option (reuse_port true))) in
      let bind_it = on_socket (asio.bind s.endpoint) in
      let t : UdpServer Socket = record s {
        socket = (asio.open_socket s.endpoint.protocol s.socket).0;
      } in
      rw (opens, state)
        (state->>= IsStuck set_address (λ _. set_port >> bind_it) t
          (option-Stuck s.option_reuse_address (reuse_address true) t
            (record { stopped = off; open_socket = laws.opens s.endpoint.protocol s.socket opens }))
          λ _ u hu.
            state->>= IsStuck set_port (λ _. bind_it) u
              (option-Stuck s.option_reuse_port (reuse_port true) u hu)
              λ _ v hv.
                on_socket-Stuck asio on IsOpen laws (asio.bind s.endpoint) v
                  (laws.bind_keeps s.endpoint) hv)

  -- If the start handler of a stopped server opens the socket and then throws, at a socket option
  -- or at the bind, the server can never be started again: whatever methods are called and whatever
  -- handlers run after it, the server is stopped and every later start handler throws already_open.
  -- Asked of asio are the documented laws of an open socket.
  pub failed_start_forever :
      (s t : UdpServer Socket) (e : ErrorCode) {u : UdpServer Socket}
      → s.started ≡ false
      → (asio.open_socket s.endpoint.protocol s.socket).1 ≡ none
      → open_and_bind asio on s ≡ throw e t
      → Reach asio on t u
      → (run_start asio on s ≡ throw e t)
        × (u.started ≡ false)
        × (run_start asio on u ≡ throw already_open u)
  failed_start_forever s t e {u} off opens h r =
      let stuck : IsStuck t = subst (λ o. IsStuck (state o)) h (open_and_bind-Stuck s off opens) in
      let still = Reach-Stuck asio on IsOpen laws r stuck in
      (throw-run_start asio on s t e off h, still.stopped, start-Stuck asio on IsOpen laws u still)
