-- ===== src/UdpClient/Multicast.antt =====
-- The multicast groups of UDPClient.
use kernel_udp_tcp.Prelude.{Bool, not, none, some, if◌then◌else◌}
use kernel_udp_tcp.Asio.{Asio, Text, join_group, leave_group, invalid_argument}
use kernel_udp_tcp.Asio.Action.{Act, ok, throw, ◌>>◌}
use kernel_udp_tcp.UdpClient.{
  UdpClient, Overrides, join_handler, leave_handler, on_joined, on_left, on_socket, submit,
  call_back,
}

module _ {Socket : Type 0} (asio : Asio Socket) (on : Overrides Socket) where
  -- JoinMulticastGroup
  unfoldable pub join : Text → Act (UdpClient Socket) (Unit {0})
  join address s = if not s.connected then ok tt s else elim (asio.make_address address) [
    | none ↦ throw invalid_argument s
    | some (protocol, group) ↦
        (do on_socket (asio.set_option (join_group group)); call_back on (on_joined address)) s
  ]

  -- LeaveMulticastGroup
  unfoldable pub leave : Text → Act (UdpClient Socket) (Unit {0})
  leave address s = if not s.connected then ok tt s else elim (asio.make_address address) [
    | none ↦ throw invalid_argument s
    | some (protocol, group) ↦
        (do on_socket (asio.set_option (leave_group group)); call_back on (on_left address)) s
  ]

  -- JoinMulticastGroupAsync: `inside` says that the caller runs on the executor, where a dispatch
  -- runs in place.
  unfoldable pub join_async : Bool → Text → Act (UdpClient Socket) (Unit {0})
  unfolding join
  join_async inside address s =
      if not s.connected
      then ok tt s
      else if inside
      then join address s
      else ok tt (submit (join_handler address) s)

  -- LeaveMulticastGroupAsync
  unfoldable pub leave_async : Bool → Text → Act (UdpClient Socket) (Unit {0})
  unfolding leave
  leave_async inside address s =
      if not s.connected
      then ok tt s
      else if inside
      then leave address s
      else ok tt (submit (leave_handler address) s)
