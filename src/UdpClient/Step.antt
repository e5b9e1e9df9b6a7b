-- ===== src/UdpClient/Step.antt =====
-- UDPClient in its program: a thread calls a method, or a thread of the service runs a handler
-- that asio holds. Any handler may be next, so the order of two threads, or of the kernel, is free.
use kernel_udp_tcp.Prelude.{ℕ, ◌≡◌, Bool, List, ◌∷◌, ◌++◌, Option, ◌⊎◌}
use kernel_udp_tcp.Asio.{Asio, Bytes, Text, Endpoint, ErrorCode, Executor}
use kernel_udp_tcp.Asio.Action.{Act, ◌>>=◌, state, skip, modify}
use kernel_udp_tcp.Asio.Race.{Schedule}
use kernel_udp_tcp.UdpClient.{
  UdpClient, Overrides, Task, connect_handler, resolve_handler, disconnect_handler, join_handler,
  leave_handler, async_resolve, async_send_to, async_receive_from,
}
use kernel_udp_tcp.UdpClient.Connection.{
  connect, connect_resolved, disconnect, reconnect, connect_async, connect_resolved_async,
  disconnect_async, run_connect, run_resolve, run_resolved, run_disconnect,
}
use kernel_udp_tcp.UdpClient.Multicast.{join, leave, join_async, leave_async}
use kernel_udp_tcp.UdpClient.Send.{send_to, send, send_timed, send_async, run_send}
use kernel_udp_tcp.UdpClient.Receive.{receive, receive_timed, receive_async, run_receive}

-- The public methods. ReconnectAsync is DisconnectAsync, other steps, ConnectAsync; a text is a
-- buffer; the methods that return a std::string change the state as those on a buffer do, and
-- those without an endpoint are those at the client's endpoint.
pub data Call (Socket : Type 0) : Type 0 where
  connect_call disconnect_call reconnect_call connect_async_call disconnect_async_call : Call Socket
  connect_resolved_call connect_resolved_async_call : Bool → Call Socket
  join_call leave_call : Text → Call Socket
  join_async_call leave_async_call : Bool → Text → Call Socket
  send_call : Option Bytes → ℕ → Call Socket
  send_to_call : Endpoint → Option Bytes → ℕ → Call Socket
  send_timed_call : Schedule → Socket → Endpoint → Option Bytes → ℕ → Call Socket
  send_async_call : Endpoint → Option Bytes → ℕ → Call Socket
  receive_call : Bool → ℕ → Call Socket
  receive_timed_call : Schedule → Socket → Endpoint → Bytes → Bool → ℕ → Call Socket
  receive_async_call : Call Socket
  setup_reuse_address setup_reuse_port setup_multicast : Bool → Call Socket

-- What asio tells a handler: its error, the size moved, what a receive has written, and the answer
-- of a resolver.
pub record Completion : Type 0 where
  pub error : Option ErrorCode
  pub moved : ℕ
  pub endpoint : Endpoint
  pub bytes : Bytes
  pub answer : ErrorCode ⊎ Endpoint

module _ {Socket : Type 0} (asio : Asio Socket) (on : Overrides Socket) where
  abbrev void : {A : Type 0} → Act (UdpClient Socket) A → Act (UdpClient Socket) (Unit {0})
  void m = m >>= λ _. skip

  unfoldable pub perform : Call Socket → Act (UdpClient Socket) (Unit {0})
  perform connect_call = void (connect asio on)
  perform disconnect_call = void (disconnect asio on)
  perform reconnect_call = void (reconnect asio on)
  perform connect_async_call = void (connect_async asio on)
  perform disconnect_async_call = void (disconnect_async asio on)
  perform (connect_resolved_call b) = void (connect_resolved asio on b)
  perform (connect_resolved_async_call b) = void (connect_resolved_async asio on b)
  perform (join_call a) = join asio on a
  perform (leave_call a) = leave asio on a
  perform (join_async_call inside a) = join_async asio on inside a
  perform (leave_async_call inside a) = leave_async asio on inside a
  perform (send_call b n) = void (send asio on b n)
  perform (send_to_call e b n) = void (send_to asio on e b n)
  perform (send_timed_call c k e b n) = void (send_timed asio on c k e b n)
  perform (send_async_call e b n) = void (send_async asio on e b n)
  perform (receive_call b n) = void (receive asio on b n)
  perform (receive_timed_call c k e w b n) = void (receive_timed asio on c k e w b n)
  perform receive_async_call = receive_async asio on
  perform (setup_reuse_address b) = modify (λ s. record s { option_reuse_address = b })
  perform (setup_reuse_port b) = modify (λ s. record s { option_reuse_port = b })
  perform (setup_multicast b) =
      modify (λ s. record s { option_reuse_address = b; option_multicast = b })

  unfoldable pub run_task : Completion → Task → Act (UdpClient Socket) (Unit {0})
  run_task c connect_handler = run_connect asio on
  run_task c resolve_handler = run_resolve asio on
  run_task c disconnect_handler = run_disconnect asio on
  run_task c (join_handler address) = join asio on address
  run_task c (leave_handler address) = leave asio on address
  run_task c (async_resolve address service) = run_resolved asio on c.answer
  run_task c (async_send_to bytes endpoint) = run_send asio on c.error c.moved
  run_task c (async_receive_from room) = run_receive asio on c.error c.endpoint c.bytes

  -- An exception leaves the state where it was thrown.
  pub data Step (s : UdpClient Socket) : UdpClient Socket → Type 0 where
    calls : (c : Call Socket) → Step s (state (perform c s))
    runs :
        (before after : List (Executor × Task)) (x : Executor) (t : Task) (c : Completion)
        → s.pending ≡ before ++ ((x, t) ∷ after)
        → Step s (state (run_task c t (record s { pending = before ++ after })))

  pub data Reach (s : UdpClient Socket) : UdpClient Socket → Type 0 where
    here : Reach s s
    next : {t u : UdpClient Socket} → Reach s t → Step t u → Reach s u
