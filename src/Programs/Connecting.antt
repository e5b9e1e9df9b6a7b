-- ===== src/Programs/Connecting.antt =====
-- The connect handler of a MulticastClient (client.cpp) when every call of asio succeeds.
use kernel_udp_tcp.Prelude.{
  ℕ, ◌≡◌, refl, ap, ◌∙◌, Bool, true, false, [], ◌∷◌, ◌++◌, length, Option, none, some, if-not,
}
use kernel_udp_tcp.Asio.{
  Asio, Endpoint, InternetProtocol, Text, resize, join_group, unsigned_short, executor,
  invalid_argument,
}
use kernel_udp_tcp.Asio.Action.{Outcome, ok, throw, ◌>>◌, ok->>=}
use kernel_udp_tcp.Asio.Success.{Succeeds}
use kernel_udp_tcp.Asio.Buffers.{length-resize}
use kernel_udp_tcp.UdpClient.{
  UdpClient, Overrides, no_overrides, on_connected, on_joined, on_socket, call_back,
  async_receive_from,
}
use kernel_udp_tcp.UdpClient.Connection.{run_connect}
use kernel_udp_tcp.UdpClient.Multicast.{join}
use kernel_udp_tcp.UdpClient.Receive.{receive_async}
use kernel_udp_tcp.Programs.MulticastClient.{multicast_client}
use kernel_udp_tcp.Programs.Growth.{listening, try_receive-listening}
use kernel_udp_tcp.Programs.Listening.{Listening}
use kernel_udp_tcp.UdpClient.Success.{
  Ready, on_socket_succeeds, up, connect_to_succeeds, run_connect_succeeds,
}

module _ {Socket : Type 0} (asio : Asio Socket) (IsClosed IsOpen : Socket → Type 0) (room : ℕ)
    (works : Succeeds asio IsClosed IsOpen room) (stop : Bool) (multicast : Text)
    (group : InternetProtocol × Text) (valid : asio.make_address multicast ≡ some group) where
  abbrev client : Overrides Socket
  client = multicast_client asio stop multicast

  -- The group is joined, with what onJoinedMulticastGroup is called with.
  abbrev in_group : UdpClient Socket → UdpClient Socket
  in_group s = record s {
    socket = (asio.set_option (join_group group.1) s.socket).0;
    calls = on_joined multicast ∷ s.calls;
  }

  join_succeeds :
      (s : UdpClient Socket)
      → s.connected ≡ true
      → IsOpen s.socket
      → join asio no_overrides multicast s ≡ ok tt (in_group s)
  unfolding join
  join_succeeds s on open_socket =
      if-not _ _ on
      ∙ ap
          (λ (o : Option (InternetProtocol × Text)).
            elim o as (λ _. Outcome (UdpClient Socket) (Unit {0})) [
              | none ↦ throw invalid_argument s
              | some (protocol, g) ↦
                  (do
                    on_socket (asio.set_option (join_group g))
                    call_back no_overrides (on_joined multicast))
                    s
            ])
          valid
      ∙ ok->>= (on_socket (asio.set_option (join_group group.1))) _ s (
          on_socket_succeeds asio IsClosed IsOpen room works no_overrides
            (asio.set_option (join_group group.1)) s
            (works.options (join_group group.1) s.socket open_socket).0)

  on_connected_succeeds :
      (s : UdpClient Socket)
      → s.connected ≡ true
      → s.receiving ≡ false
      → IsOpen s.socket
      → client on_connected s ≡ ok tt (listening asio stop multicast (in_group s))
  unfolding multicast_client receive_async
  on_connected_succeeds s on free open_socket =
      ok->>= (join asio no_overrides multicast) _ s (join_succeeds s on open_socket)
      ∙ try_receive-listening asio stop multicast (in_group s) on free

  -- The connect handler of a client that is ready, all of whose calls succeed, calls onConnected
  -- and then onJoinedMulticastGroup, and leaves the client listening on an open socket, with
  -- nothing counted.
  pub run_connect-Listening :
      (s : UdpClient Socket)
      → Ready asio s
      → IsClosed s.socket
      → (t : UdpClient Socket) × (run_connect asio client s ≡ ok tt t)
        × Listening room t
        × (t.calls ≡ on_joined multicast ∷ on_connected ∷ s.calls)
        × (t.datagrams_received ≡ 0)
        × IsOpen t.socket
  run_connect-Listening s r closed =
      let e : Endpoint = record {
        protocol = r.host.0;
        address = r.host.1;
        port = unsigned_short s.port;
      } in
      let (k, open_k, reached) =
        connect_to_succeeds asio IsClosed IsOpen room works client e s closed in
      let v = up asio IsClosed IsOpen room works client e k s in
      let w : UdpClient Socket = record v { calls = on_connected ∷ v.calls } in
      let same = length-resize room s.receive_buffer in
      (
        listening asio stop multicast (in_group w),
        run_connect_succeeds asio IsClosed IsOpen room works client s _ r
            (reached ∙ on_connected_succeeds w refl r.free open_k),
        record {
          connected = refl;
          buffer = same;
          under_way =
              ap
                (λ l.
                  l
                  ++ (
                    executor s.strand_required,
                    async_receive_from (length (resize room s.receive_buffer)),
                  )
                    ∷ [])
                r.idle
              ∙ ap (λ n. (executor s.strand_required, async_receive_from n) ∷ []) same;
        },
        refl,
        refl,
        (works.options (join_group group.1) k open_k).1,
      )
