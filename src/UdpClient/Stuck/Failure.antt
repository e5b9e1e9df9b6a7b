-- ===== src/UdpClient/Stuck/Failure.antt =====
-- What a failed Connect of UDPClient leaves behind for good.
use kernel_udp_tcp.Prelude.{
  ◌≡◌, ap, subst, ◌∙◌, Bool, true, false, Option, none, some, arith, if-false, if-not,
}
use kernel_udp_tcp.Asio.{
  Asio, OpenLaws, Endpoint, ErrorCode, SocketOption, already_open, reuse_address, reuse_port,
  InternetProtocol, Text, unsigned_short, invalid_argument,
}
use kernel_udp_tcp.Asio.Action.{Outcome, throw, ◌>>◌, pure, state, when, state->>=, throw->>=}
use kernel_udp_tcp.UdpClient.{UdpClient, Overrides, Callback, on_socket}
use kernel_udp_tcp.UdpClient.Connection.{
  open_and_bind, local_endpoint, connect_to, connect, run_connect,
}
use kernel_udp_tcp.UdpClient.Success.{Ready}
use kernel_udp_tcp.UdpClient.Step.{Reach}
use kernel_udp_tcp.UdpClient.Stuck.{Stuck, on_socket-Stuck, connect_to-Stuck}
use kernel_udp_tcp.UdpClient.Stuck.Steps.{Reach-Stuck}

module _ {Socket : Type 0} (asio : Asio Socket) (on : Overrides Socket) where
  pub throw-connect_to :
      (e : Endpoint) (s t : UdpClient Socket) (x : ErrorCode)
      → open_and_bind asio on (record s { endpoint = e }) ≡ throw x t
      → connect_to asio on e s ≡ throw x t
  unfolding connect_to
  throw-connect_to e s t x h = ground arith

  -- So does the connect handler of a client with an address and a port.
  pub run_connect_throws :
      (s t : UdpClient Socket) (r : Ready asio s) (x : ErrorCode)
      → open_and_bind asio on (record s {
        endpoint = record { protocol = r.host.0; address = r.host.1; port = unsigned_short s.port };
      })
        ≡ throw x t
      → run_connect asio on s ≡ throw x t
  unfolding run_connect connect
  run_connect_throws s t r x h = throw->>= (connect asio on) _ s (
      if-false _ _ r.named
      ∙ if-not _ _ r.port
      ∙ if-false _ _ r.down
      ∙ ap
          (λ (o : Option (InternetProtocol × Text)).
            elim o as (λ _. Outcome (UdpClient Socket) Bool) [
              | none ↦ throw invalid_argument s
              | some (protocol, host) ↦
                  (do
                    connect_to asio on (record {
                      protocol = protocol;
                      address = host;
                      port = unsigned_short s.port;
                    })
                    pure true)
                    s
            ])
          r.valid
      ∙ throw->>= (connect_to asio on _) (λ _. pure true) s (throw-connect_to _ s t x h))

module _ {Socket : Type 0} (asio : Asio Socket) (IsOpen : Socket → Type 0)
    (laws : OpenLaws asio IsOpen) (on : Overrides Socket) where
  abbrev pub IsStuck : UdpClient Socket → Type 0
  IsStuck = Stuck asio IsOpen laws

  option-Stuck :
      (b : Bool) (o : SocketOption) (s : UdpClient Socket)
      → IsStuck s
      → IsStuck (state (when b (on_socket (asio.set_option o)) s))
  option-Stuck true o s h =
      on_socket-Stuck asio IsOpen laws (asio.set_option o) s (laws.option_keeps o) h
  option-Stuck false o s h = h

  -- The first part of a connect opens the socket and never closes it.
  open_and_bind-Stuck :
      (s : UdpClient Socket)
      → s.connected ≡ false
      → (asio.open_socket s.endpoint.protocol s.socket).1 ≡ none
      → IsStuck (state (open_and_bind asio on s))
  unfolding open_and_bind
  open_and_bind-Stuck s off opens =
      let set_address =
        when s.option_reuse_address (on_socket (asio.set_option (reuse_address true))) in
      let set_port = when s.option_reuse_port (on_socket (asio.set_option (reuse_port true))) in
      let bind_it = on_socket (asio.bind (local_endpoint asio on s)) in
      let t : UdpClient Socket = record s {
        socket = (asio.open_socket s.endpoint.protocol s.socket).0;
      } in
      rw (opens, state)
        (state->>= IsStuck set_address (λ _. set_port >> bind_it) t
          (option-Stuck s.option_reuse_address (reuse_address true) t (record {
            disconnected = off;
            open_socket = laws.opens s.endpoint.protocol s.socket opens;
          }))
          λ _ u hu.
            state->>= IsStuck set_port (λ _. bind_it) u
              (option-Stuck s.option_reuse_port (reuse_port true) u hu)
              λ _ v hv.
                on_socket-Stuck asio IsOpen laws (asio.bind (local_endpoint asio on s)) v
                  (laws.bind_keeps (local_endpoint asio on s)) hv)

  -- If a connect of a disconnected client, to an endpoint e, opens the socket and then throws, at an
  -- option or at the bind, the client can never be connected again: whatever methods are called and
  -- whatever handlers run after it, the client is disconnected, and every later connect, to any
  -- endpoint, throws already_open. The laws are those of an open socket, and the virtual methods
  -- keep a disconnected client with an open socket so.
  pub failed_connect_forever :
      ((c : Callback) (s : UdpClient Socket) → IsStuck s → IsStuck (state (on c s)))
      → (e later : Endpoint) (s t : UdpClient Socket) (x : ErrorCode) {u : UdpClient Socket}
      → s.connected ≡ false
      → (asio.open_socket e.protocol s.socket).1 ≡ none
      → open_and_bind asio on (record s { endpoint = e }) ≡ throw x t
      → Reach asio on t u
      → (connect_to asio on e s ≡ throw x t)
        × (u.connected ≡ false)
        × (connect_to asio on later u ≡ throw already_open (record u { endpoint = later }))
  failed_connect_forever keeps e later s t x {u} off opens h r =
      let stuck : IsStuck t =
        subst (λ o. IsStuck (state o)) h
          (open_and_bind-Stuck (record s { endpoint = e }) off opens) in
      let still = Reach-Stuck asio IsOpen laws on keeps r stuck in
      (
        throw-connect_to asio on e s t x h,
        still.disconnected,
        connect_to-Stuck asio IsOpen laws on keeps later u still,
      )
