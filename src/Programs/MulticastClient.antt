-- ===== src/Programs/MulticastClient.antt =====
-- MulticastClient (client.cpp): the virtual methods that it overrides, on a UDPClient.
use kernel_udp_tcp.Prelude.{ℕ, Bool, true, false, not, []}
use kernel_udp_tcp.Asio.{Asio, Bytes, Endpoint, Text}
use kernel_udp_tcp.Asio.Action.{state, ◌>>=◌, ◌>>◌, skip, when, state->>=, state-void}
use kernel_udp_tcp.UdpClient.{
  UdpClient, Overrides, no_overrides, on_connected, on_disconnected, on_received, on_sent,
  on_joined, on_left, on_error, created,
}
use kernel_udp_tcp.UdpClient.Connection.{connect_async}
use kernel_udp_tcp.UdpClient.Multicast.{join}
use kernel_udp_tcp.UdpClient.Receive.{receive_async}
use kernel_udp_tcp.UdpClient.Step.{Reach}
use kernel_udp_tcp.UdpClient.Invariant.{Inv, Keeps, no_overrides-Keeps}
use kernel_udp_tcp.UdpClient.Preserve.Handlers.{connect_async-Inv, join-Inv}
use kernel_udp_tcp.UdpClient.Preserve.Receive.{receive_async-Inv}
use kernel_udp_tcp.UdpClient.Reach.{client-Reach-Inv}

-- `stop` is the flag _stop and `multicast` the group. Of the methods that these call, the class
-- overrides none that JoinMulticastGroup calls (onJoinedMulticastGroup).
module _ {Socket : Type 0} (asio : Asio Socket) (stop : Bool) (multicast : Text) where
  unfoldable pub multicast_client : Overrides Socket
  multicast_client on_connected = do
    join asio no_overrides multicast
    receive_async asio no_overrides
  multicast_client on_disconnected = when (not stop) (connect_async asio no_overrides >>= λ _. skip)
  multicast_client (on_received endpoint bytes) = receive_async asio no_overrides
  multicast_client (on_joined address) = skip
  multicast_client (on_left address) = skip
  multicast_client (on_sent endpoint sent) = skip
  multicast_client (on_error e) = skip

  base : Keeps {Socket = Socket} no_overrides
  base = no_overrides-Keeps Socket

  multicast_client-Keeps : Keeps multicast_client
  unfolding multicast_client
  multicast_client-Keeps = record { any = any; error = λ e s b h. h }
    where
      any : (c : _) (s : UdpClient Socket) → Inv s → Inv (state (multicast_client c s))
      any on_connected s h =
          state->>= Inv (join asio no_overrides multicast) (λ _. receive_async asio no_overrides) s
            (join-Inv asio no_overrides base multicast s h)
            (λ _ t ht. receive_async-Inv asio no_overrides base t ht)
      any on_disconnected s h = again stop
        where
          again :
              (b : Bool)
              → Inv (state (when (not b) (connect_async asio no_overrides >>= λ _. skip) s))
          again true = h
          again false =
              state-void Inv (connect_async asio no_overrides) s
                (connect_async-Inv asio no_overrides base s h)
      any (on_received endpoint bytes) s h = receive_async-Inv asio no_overrides base s h
      any (on_joined address) s h = h
      any (on_left address) s h = h
      any (on_sent endpoint sent) s h = h
      any (on_error e) s h = h

  -- The client of client.cpp, made with an address and a port, is well-formed (as UDPClient
  -- promises it) in every state that it can reach, for either value of _stop: what UDPClient asks
  -- of a derived class holds of MulticastClient.
  pub program-Inv :
      (id : Bytes) (strand_required : Bool) (socket : Socket) (unset : Endpoint) (address : Text)
      (port : ℕ) {t : UdpClient Socket}
      → Reach asio multicast_client
          (created id strand_required socket unset address [] port unset)
          t
      → Inv t
  program-Inv id strand_required socket unset address port r =
      client-Reach-Inv asio multicast_client multicast_client-Keeps id strand_required socket unset
        unset address [] port r
