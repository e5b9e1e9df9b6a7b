-- ===== src/UdpClient/Success.antt =====
-- The connect handler of UDPClient when the calls of asio succeed.
use kernel_udp_tcp.Prelude.{
  ℕ, ◌≡◌, refl, ap, ◌∙◌, Bool, true, false, [], Option, none, some, if-false, if-not,
}
use kernel_udp_tcp.Asio.{
  Asio, Endpoint, ErrorCode, InternetProtocol, SocketOption, Text, resize, reuse_address,
  reuse_port, unsigned_short, invalid_argument,
}
use kernel_udp_tcp.Asio.Action.{Outcome, ok, throw, ◌>>◌, when, pure, ok->>=}
use kernel_udp_tcp.Asio.Success.{Succeeds}
use kernel_udp_tcp.UdpClient.{UdpClient, Overrides, on_connected, on_socket, is_positive, call_back}
use kernel_udp_tcp.UdpClient.Connection.{
  is_empty, connect, connect_to, open_and_bind, local_endpoint, size_receive_buffer, opened,
  run_connect,
}

-- A client with an address and a port, as the constructor made it.
pub record Ready {Socket : Type 0} (asio : Asio Socket) (s : UdpClient Socket) : Type 0 where
  pub host : InternetProtocol × Text
  pub named : is_empty s.address ≡ false
  pub valid : asio.make_address s.address ≡ some host
  pub port : is_positive s.port ≡ true
  pub down : s.connected ≡ false
  pub free : s.receiving ≡ false
  pub idle : s.pending ≡ []

module _ {Socket : Type 0} (asio : Asio Socket) (IsClosed IsOpen : Socket → Type 0) (room : ℕ)
    (works : Succeeds asio IsClosed IsOpen room) (on : Overrides Socket) where
  -- The client on another state of the socket.
  abbrev moved_to : Socket → UdpClient Socket → UdpClient Socket
  moved_to k s = record s { socket = k }

  pub on_socket_succeeds :
      (f : Socket → Socket × Option ErrorCode) (s : UdpClient Socket)
      → (f s.socket).1 ≡ none
      → on_socket f s ≡ ok tt (moved_to (f s.socket).0 s)
  on_socket_succeeds f s e =
      ap
        (λ (o : Option ErrorCode). elim o as (λ _. Outcome (UdpClient Socket) (Unit {0})) [
          | none ↦ ok tt (moved_to (f s.socket).0 s)
          | some x ↦ throw x (moved_to (f s.socket).0 s)
        ])
        e

  option_succeeds :
      (b : Bool) (o : SocketOption) (s : UdpClient Socket)
      → IsOpen s.socket
      → (k : Socket) × IsOpen k × (when b (on_socket (asio.set_option o)) s ≡ ok tt (moved_to k s))
  option_succeeds true o s open_socket =
      let (fine, still) = works.options o s.socket open_socket in
      ((asio.set_option o s.socket).0, still, on_socket_succeeds (asio.set_option o) s fine)
  option_succeeds false o s open_socket = (s.socket, open_socket, refl)

  open_and_bind_succeeds :
      (s : UdpClient Socket)
      → IsClosed s.socket
      → (k : Socket) × IsOpen k × (open_and_bind asio on s ≡ ok tt (moved_to k s))
  unfolding open_and_bind
  open_and_bind_succeeds s closed =
      let p = s.endpoint.protocol in
      let e = local_endpoint asio on s in
      let k : Socket = (asio.open_socket p s.socket).0 in
      let (opened, open_k) = works.opens p s.socket closed in
      let (l, open_l, first) =
        option_succeeds s.option_reuse_address (reuse_address true) (moved_to k s) open_k in
      let (m, open_m, second) =
        option_succeeds s.option_reuse_port (reuse_port true) (moved_to l s) open_l in
      let (bound, still) = works.binds e m open_m in
      (
        (asio.bind e m).0,
        still,
        ok->>= (on_socket (asio.open_socket p)) _ s
              (on_socket_succeeds (asio.open_socket p) s opened)
            ∙ (ok->>=
                  (when s.option_reuse_address (on_socket (asio.set_option (reuse_address true)))) _
                  (moved_to k s) first
                ∙ (ok->>= (when s.option_reuse_port (on_socket (asio.set_option (reuse_port true))))
                      _ (moved_to l s) second
                    ∙ on_socket_succeeds (asio.bind e) (moved_to m s) bound)),
      )

  -- Up to onConnected.
  abbrev pub up : Endpoint → Socket → UdpClient Socket → UdpClient Socket
  up e k s =
      opened asio on
        (record s { endpoint = e; socket = k; receive_buffer = resize room s.receive_buffer })

  pub connect_to_succeeds :
      (e : Endpoint) (s : UdpClient Socket)
      → IsClosed s.socket
      → (k : Socket) × IsOpen k × (connect_to asio on e s ≡ call_back on on_connected (up e k s))
  unfolding connect_to size_receive_buffer
  connect_to_succeeds e s closed =
      let t : UdpClient Socket = record s { endpoint = e } in
      let (k, open_k, bound) = open_and_bind_succeeds t closed in
      (
        k,
        open_k,
        ok->>= (open_and_bind asio on) _ t bound
            ∙ ok->>= (size_receive_buffer asio on) _ (moved_to k t) (sized k open_k t),
      )
    where
      sized :
          (k : Socket) (open_k : IsOpen k) (t : UdpClient Socket)
          → size_receive_buffer asio on (moved_to k t)
            ≡ ok tt (record t { socket = k; receive_buffer = resize room t.receive_buffer })
      sized k open_k t =
          ap
            (λ (r : ℕ × Option ErrorCode).
              elim (r.1) as (λ _. Outcome (UdpClient Socket) (Unit {0})) [
                | none ↦
                    ok tt (record t { socket = k; receive_buffer = resize r.0 t.receive_buffer })
                | some x ↦ throw x (moved_to k t)
              ])
            (works.sized k open_k)

  -- What connect_to returns, the connect handler returns.
  pub run_connect_succeeds :
      (s u : UdpClient Socket) (r : Ready asio s)
      → connect_to asio on
          (record { protocol = r.host.0; address = r.host.1; port = unsigned_short s.port })
          s
        ≡ ok tt u
      → run_connect asio on s ≡ ok tt u
  unfolding run_connect connect
  run_connect_succeeds s u r e = ok->>= (connect asio on) _ s (
      if-false _ _ r.named
      ∙ if-not _ _ r.port
      ∙ if-false _ _ r.down
      ∙ ap
          (λ (o : Option (InternetProtocol × Text)).
            elim o as (λ _. Outcome (UdpClient Socket) Bool) [
              | none ↦ throw invalid_argument s
              | some (protocol, host) ↦
                  (do
                    connect_to asio on (record {
                      protocol = protocol;
                      address = host;
                      port = unsigned_short s.port;
                    })
                    pure true)
                    s
            ])
          r.valid
      ∙ ok->>= (connect_to asio on _) (λ _. pure true) s e)
