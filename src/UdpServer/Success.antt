-- ===== src/UdpServer/Success.antt =====
-- The start handler of UDPServer when the calls of asio succeed.
use kernel_udp_tcp.Prelude.{ℕ, ◌≡◌, refl, ap, ◌∙◌, Bool, true, false, Option, none, some, if-false}
use kernel_udp_tcp.Asio.{Asio, ErrorCode, SocketOption, reuse_address, reuse_port}
use kernel_udp_tcp.Asio.Action.{Outcome, ok, throw, when, ok->>=}
use kernel_udp_tcp.Asio.Success.{Succeeds}
use kernel_udp_tcp.UdpServer.{UdpServer, Overrides, on_started, on_socket, call_back, resize}
use kernel_udp_tcp.UdpServer.Lifecycle.{open_and_bind, size_receive_buffer, opened, run_start}

module _ {Socket : Type 0} (asio : Asio Socket) (IsClosed IsOpen : Socket → Type 0) (room : ℕ)
    (works : Succeeds asio IsClosed IsOpen room) (on : Overrides Socket) where
  -- The server on another state of the socket.
  abbrev moved_to : Socket → UdpServer Socket → UdpServer Socket
  moved_to k s = record s { socket = k }

  on_socket_succeeds :
      (f : Socket → Socket × Option ErrorCode) (s : UdpServer Socket)
      → (f s.socket).1 ≡ none
      → on_socket f s ≡ ok tt (moved_to (f s.socket).0 s)
  on_socket_succeeds f s e =
      ap
        (λ (o : Option ErrorCode). elim o as (λ _. Outcome (UdpServer Socket) (Unit {0})) [
          | none ↦ ok tt (moved_to (f s.socket).0 s)
          | some x ↦ throw x (moved_to (f s.socket).0 s)
        ])
        e

  option_succeeds :
      (b : Bool) (o : SocketOption) (s : UdpServer Socket)
      → IsOpen s.socket
      → (k : Socket) × IsOpen k × (when b (on_socket (asio.set_option o)) s ≡ ok tt (moved_to k s))
  option_succeeds true o s open_socket =
      let (fine, still) = works.options o s.socket open_socket in
      ((asio.set_option o s.socket).0, still, on_socket_succeeds (asio.set_option o) s fine)
  option_succeeds false o s open_socket = (s.socket, open_socket, refl)

  open_and_bind_succeeds :
      (s : UdpServer Socket)
      → IsClosed s.socket
      → (k : Socket) × IsOpen k × (open_and_bind asio on s ≡ ok tt (moved_to k s))
  unfolding open_and_bind
  open_and_bind_succeeds s closed =
      let p = s.endpoint.protocol in
      let e = s.endpoint in
      let k : Socket = (asio.open_socket p s.socket).0 in
      let (opened, open_k) = works.opens p s.socket closed in
      let (l, open_l, first) =
        option_succeeds s.option_reuse_address (reuse_address true) (moved_to k s) open_k in
      let (m, open_m, second) =
        option_succeeds s.option_reuse_port (reuse_port true) (moved_to l s) open_l in
      let (bound, still) = works.binds e m open_m in
      (
        (asio.bind e m).0,
        still,
        ok->>= (on_socket (asio.open_socket p)) _ s
              (on_socket_succeeds (asio.open_socket p) s opened)
            ∙ (ok->>=
                  (when s.option_reuse_address (on_socket (asio.set_option (reuse_address true)))) _
                  (moved_to k s) first
                ∙ (ok->>= (when s.option_reuse_port (on_socket (asio.set_option (reuse_port true))))
                      _ (moved_to l s) second
                    ∙ on_socket_succeeds (asio.bind e) (moved_to m s) bound)),
      )

  -- Up to onStarted.
  abbrev pub up : Socket → UdpServer Socket → UdpServer Socket
  up k s = opened asio on (record s { socket = k; receive_buffer = resize room s.receive_buffer })

  -- The start handler of a server that is not started comes to onStarted, with the server started.
  pub run_start_succeeds :
      (s : UdpServer Socket)
      → s.started ≡ false
      → IsClosed s.socket
      → (k : Socket) × IsOpen k × (run_start asio on s ≡ call_back on on_started (up k s))
  unfolding run_start size_receive_buffer
  run_start_succeeds s off closed =
      let (k, open_k, bound) = open_and_bind_succeeds s closed in
      (
        k,
        open_k,
        if-false _ _ off
            ∙ ok->>= (open_and_bind asio on) _ s bound
            ∙ ok->>= (size_receive_buffer asio on) _ (moved_to k s) (sized k open_k),
      )
    where
      sized :
          (k : Socket)
          → IsOpen k
          → size_receive_buffer asio on (moved_to k s)
            ≡ ok tt (record s { socket = k; receive_buffer = resize room s.receive_buffer })
      sized k open_k =
          ap
            (λ (r : ℕ × Option ErrorCode).
              elim (r.1) as (λ _. Outcome (UdpServer Socket) (Unit {0})) [
                | none ↦
                    ok tt (record s { socket = k; receive_buffer = resize r.0 s.receive_buffer })
                | some x ↦ throw x (moved_to k s)
              ])
            (works.sized k open_k)
