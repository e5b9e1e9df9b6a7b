-- ===== src/UdpServer/Lifecycle.antt =====
-- Start, Stop and Restart of UDPServer, with the handlers that they post.
use mathlib.Core.Option
use kernel_udp_tcp.Prelude.{ℕ, Bool, true, false, Option, none, some, List, [], ◌∷◌, if◌then◌else◌}
use kernel_udp_tcp.Asio.{Asio, Endpoint, Text, reuse_address, reuse_port, invalid_argument}
use kernel_udp_tcp.Asio.Action.{Act, Outcome, ok, throw, ◌>>=◌, ◌>>◌, modify, get, when}
use kernel_udp_tcp.UdpServer.{
  UdpServer, Overrides, start_handler, stop_handler, on_started, on_stopped, on_socket, submit,
  call_back, resize, clear_buffers, unsigned_short,
}

module _ {Socket : Type 0} (asio : Asio Socket) (on : Overrides Socket) where
  -- open, the socket options and bind
  unfoldable pub open_and_bind : Act (UdpServer Socket) (Unit {0})
  open_and_bind = do
    s ← get
    on_socket (asio.open_socket s.endpoint.protocol)
    when s.option_reuse_address (on_socket (asio.set_option (reuse_address true)))
    when s.option_reuse_port (on_socket (asio.set_option (reuse_port true)))
    on_socket (asio.bind s.endpoint)

  -- _receive_buffer.resize(option_receive_buffer_size())
  unfoldable pub size_receive_buffer : Act (UdpServer Socket) (Unit {0})
  size_receive_buffer s =
      let r = asio.get_receive_buffer_size s.socket in
      elim (r.1) [
        | none ↦ ok tt (record s { receive_buffer = resize r.0 s.receive_buffer })
        | some e ↦ throw e s
      ]

  abbrev pub opened : UdpServer Socket → UdpServer Socket
  opened s = record s {
    bytes_sending = 0;
    bytes_sent = 0;
    bytes_received = 0;
    datagrams_sent = 0;
    datagrams_received = 0;
    started = true;
  }

  unfoldable pub run_start : Act (UdpServer Socket) (Unit {0})
  unfolding open_and_bind size_receive_buffer
  run_start s =
      if s.started
      then ok tt s
      else ((do open_and_bind; size_receive_buffer; modify opened; call_back on on_started) s)

  unfoldable pub start : Act (UdpServer Socket) Bool
  start s = if s.started then ok false s else ok true (submit start_handler s)

  unfoldable pub start_multicast_at : Endpoint → Act (UdpServer Socket) Bool
  unfolding start
  start_multicast_at endpoint s = start (record s { multicast_endpoint = endpoint })

  unfoldable pub start_multicast : Text → ℕ → Act (UdpServer Socket) Bool
  unfolding start_multicast_at
  start_multicast address port s = elim (asio.make_address address) [
    | none ↦ throw invalid_argument s
    | some (protocol, host) ↦
        start_multicast_at
          (record { protocol = protocol; address = host; port = unsigned_short port }) s
  ]

  abbrev pub stopped : UdpServer Socket → UdpServer Socket
  stopped s = clear_buffers (record s { started = false; receiving = false; sending = false })

  unfoldable pub run_stop : Act (UdpServer Socket) (Unit {0})
  run_stop s =
      if s.started
      then ((do on_socket asio.close; modify stopped; call_back on on_stopped) s)
      else ok tt s

  unfoldable pub stop : Act (UdpServer Socket) Bool
  stop s = if s.started then ok true (submit stop_handler s) else ok false s

  -- `while (IsStarted()) Yield();`: what the other threads do in each round is an argument, and
  -- `none` means that the rounds ran out with the server still started.
  unfoldable pub await_stopped :
      List (UdpServer Socket → UdpServer Socket) → UdpServer Socket → Option (UdpServer Socket)
  await_stopped [] s = if s.started then none else some s
  await_stopped (round ∷ rest) s =
      let later = await_stopped rest (round s) in if s.started then later else some s

  unfoldable pub restart :
      List (UdpServer Socket → UdpServer Socket)
      → UdpServer Socket
      → Option (Outcome (UdpServer Socket) Bool)
  unfolding stop start await_stopped
  restart rounds s = elim (stop s) [
    | ok true t ↦ Option.map start (await_stopped rounds t)
    | ok false t ↦ some (ok false t)
    | throw e t ↦ some (throw e t)
  ]
