-- ===== src/UdpServer/Step.antt =====
-- UDPServer in its program: a thread calls a method, or a thread of the service runs a handler
-- that asio holds. Any handler may be next, so the order of two threads, or of the kernel, is free.
use kernel_udp_tcp.Prelude.{ℕ, ◌%◌, ◌^◌, ◌≡◌, Bool, List, ◌∷◌, ◌++◌, Option}
use kernel_udp_tcp.Asio.{Asio, Bytes, Text, Endpoint, ErrorCode}
use kernel_udp_tcp.Asio.{receive_buffer_size, send_buffer_size}
use kernel_udp_tcp.Asio.Action.{Act, ◌>>=◌, state, skip, modify}
use kernel_udp_tcp.Asio.Race.{Schedule}
use kernel_udp_tcp.UdpServer.{
  UdpServer, Overrides, Executor, Task, start_handler, stop_handler, async_send_to,
  async_receive_from, on_socket,
}
use kernel_udp_tcp.UdpServer.Lifecycle.{
  start, start_multicast_at, start_multicast, run_start, stop, run_stop,
}
use kernel_udp_tcp.UdpServer.Send.{
  send, send_timed, send_async, multicast, multicast_timed, multicast_async, run_send,
}
use kernel_udp_tcp.UdpServer.Receive.{receive, receive_timed, receive_async, run_receive}

-- The public methods. Restart is Stop, other steps, Start; a text is a buffer; the methods that
-- return a std::string change the state as those on a buffer do.
pub data Call (Socket : Type 0) : Type 0 where
  start_call stop_call receive_async_call : Call Socket
  start_multicast_at_call : Endpoint → Call Socket
  start_multicast_call : Text → ℕ → Call Socket
  send_call : Endpoint → Option Bytes → ℕ → Call Socket
  send_timed_call : Schedule → Socket → Endpoint → Option Bytes → ℕ → Call Socket
  send_async_call : Endpoint → Option Bytes → ℕ → Call Socket
  multicast_call : Option Bytes → ℕ → Call Socket
  multicast_timed_call : Schedule → Socket → Option Bytes → ℕ → Call Socket
  multicast_async_call : Option Bytes → ℕ → Call Socket
  receive_call : Bool → ℕ → Call Socket
  receive_timed_call : Schedule → Socket → Endpoint → Bytes → Bool → ℕ → Call Socket
  setup_reuse_address setup_reuse_port : Bool → Call Socket
  setup_receive_buffer_limit setup_send_buffer_limit : ℕ → Call Socket
  setup_receive_buffer_size setup_send_buffer_size : ℕ → Call Socket

-- What asio tells a handler: its error, the size moved, and what a receive has written.
pub record Completion : Type 0 where
  pub error : Option ErrorCode
  pub moved : ℕ
  pub endpoint : Endpoint
  pub bytes : Bytes

module _ {Socket : Type 0} (asio : Asio Socket) (on : Overrides Socket) where
  abbrev void : {A : Type 0} → Act (UdpServer Socket) A → Act (UdpServer Socket) (Unit {0})
  void m = m >>= λ _. skip

  unfoldable pub perform : Call Socket → Act (UdpServer Socket) (Unit {0})
  perform start_call = void (start asio on)
  perform stop_call = void (stop asio on)
  perform receive_async_call = receive_async asio on
  perform (start_multicast_at_call e) = void (start_multicast_at asio on e)
  perform (start_multicast_call a p) = void (start_multicast asio on a p)
  perform (send_call e b n) = void (send asio on e b n)
  perform (send_timed_call c k e b n) = void (send_timed asio on c k e b n)
  perform (send_async_call e b n) = void (send_async asio on e b n)
  perform (multicast_call b n) = void (multicast asio on b n)
  perform (multicast_timed_call c k b n) = void (multicast_timed asio on c k b n)
  perform (multicast_async_call b n) = void (multicast_async asio on b n)
  perform (receive_call b n) = void (receive asio on b n)
  perform (receive_timed_call c k e w b n) = void (receive_timed asio on c k e w b n)
  perform (setup_reuse_address b) = modify (λ s. record s { option_reuse_address = b })
  perform (setup_reuse_port b) = modify (λ s. record s { option_reuse_port = b })
  perform (setup_receive_buffer_limit n) = modify (λ s. record s { receive_buffer_limit = n })
  perform (setup_send_buffer_limit n) = modify (λ s. record s { send_buffer_limit = n })
  perform (setup_receive_buffer_size n) =
      on_socket (asio.set_option (receive_buffer_size (n % 2 ^ 32)))
  perform (setup_send_buffer_size n) = on_socket (asio.set_option (send_buffer_size (n % 2 ^ 32)))

  unfoldable pub run_task : Completion → Task → Act (UdpServer Socket) (Unit {0})
  run_task c start_handler = run_start asio on
  run_task c stop_handler = run_stop asio on
  run_task c (async_send_to bytes endpoint) = run_send asio on c.error c.moved
  run_task c (async_receive_from room) = run_receive asio on c.error c.endpoint c.bytes

  -- An exception leaves the state where it was thrown: the service's thread reports it.
  pub data Step (s : UdpServer Socket) : UdpServer Socket → Type 0 where
    calls : (c : Call Socket) → Step s (state (perform c s))
    runs :
        (before after : List (Executor × Task)) (x : Executor) (t : Task) (c : Completion)
        → s.pending ≡ before ++ ((x, t) ∷ after)
        → Step s (state (run_task c t (record s { pending = before ++ after })))

  pub data Reach (s : UdpServer Socket) : UdpServer Socket → Type 0 where
    here : Reach s s
    next : {t u : UdpServer Socket} → Reach s t → Step t u → Reach s u
