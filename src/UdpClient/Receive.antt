-- ===== src/UdpClient/Receive.antt =====
-- Receive, ReceiveAsync and TryReceive of UDPClient.
use mathlib.Core.Option
use kernel_udp_tcp.Prelude.{
  ℕ, ◌*◌, ◌%◌, ◌^◌, Bool, true, false, not, ◌&&◌, ◌++◌, Option, none, some, length, take, drop,
  replicate, ltb, ◌==◌, if◌then◌else◌,
}
use kernel_udp_tcp.Asio.{Asio, Bytes, Endpoint, ErrorCode, no_buffer_space, failed, add64, resize}
use kernel_udp_tcp.Asio.Action.{Act, ok, ◌>>=◌, ◌>>◌, modify, get, pure}
use kernel_udp_tcp.Asio.Race.{Schedule, Race, race}
use kernel_udp_tcp.UdpClient.{
  UdpClient, Overrides, async_receive_from, on_received, submit, call_back, send_error,
}
use kernel_udp_tcp.UdpClient.Connection.{disconnect_dispatched}
use kernel_udp_tcp.UdpClient.Send.{give_up}

-- What a call wrote for its caller: the sender and the bytes; `none` where it returned 0 at a guard.
abbrev pub Received : Type 0
Received = Option (Endpoint × Bytes)

module _ {Socket : Type 0} (asio : Asio Socket) (on : Overrides Socket) where
  abbrev pub counted_received : ℕ → UdpClient Socket → UdpClient Socket
  counted_received received s = record s {
    datagrams_received = add64 s.datagrams_received 1;
    bytes_received = add64 s.bytes_received received;
  }

  -- The statistics and onReceived of a call of receive_from, also where it failed.
  unfoldable pub count_received : Endpoint → Bytes → Act (UdpClient Socket) (Unit {0})
  count_received endpoint bytes = do
    modify (counted_received (length bytes))
    call_back on (on_received endpoint bytes)

  unfoldable pub receive_end : Endpoint → Bytes → Option ErrorCode → Act (UdpClient Socket) Received
  unfolding count_received give_up
  receive_end endpoint bytes ec = do
    count_received endpoint bytes
    give_up asio on ec
    pure (some (endpoint, bytes))

  -- `present` says that the buffer is not nullptr.
  unfoldable pub receive : Bool → ℕ → Act (UdpClient Socket) Received
  unfolding receive_end
  receive present size s =
      let r = asio.receive_from size s.socket in
      if not s.connected
      then ok none s
      else if size == 0
      then ok none s
      else if not present
      then ok none s
      else receive_end r.1 r.2 r.3 (record s { socket = r.0 })

  -- With a timeout: what was written, and the socket when both handlers have run.
  unfoldable pub receive_wait :
      Endpoint → Bytes → Option Race → Act (UdpClient Socket) (Option Received)
  unfolding receive_end
  receive_wait endpoint written none = pure none
  receive_wait endpoint written (some r) = do
    x ← receive_end endpoint (take r.moved written) (if failed r.error then r.error else none)
    pure (some x)

  -- The outer `none` means that it waits for ever.
  unfoldable pub receive_timed :
      Schedule → Socket → Endpoint → Bytes → Bool → ℕ → Act (UdpClient Socket) (Option Received)
  unfolding receive_wait
  receive_timed schedule after endpoint written present size s =
      if not s.connected
      then ok (some none) s
      else if size == 0
      then ok (some none) s
      else if not present
      then ok (some none) s
      else receive_wait endpoint written (race schedule) (record s { socket = after })

  -- The std::string of `size` zeros, overwritten and cut to what was received.
  abbrev pub text_of : ℕ → Received → Bytes
  text_of size none = resize 0 (replicate size 0)
  text_of size (some (endpoint, bytes)) =
      resize (length bytes) (bytes ++ drop (length bytes) (replicate size 0))

  unfoldable pub receive_text : ℕ → Act (UdpClient Socket) Bytes
  unfolding receive
  receive_text size = do r ← receive true size; pure (text_of size r)

  unfoldable pub receive_text_timed :
      Schedule → Socket → Endpoint → Bytes → ℕ → Act (UdpClient Socket) (Option Bytes)
  unfolding receive_timed
  receive_text_timed schedule after endpoint written size = do
    r ← receive_timed schedule after endpoint written true size
    pure (Option.map (text_of size) r)

  -- ReceiveAsync is TryReceive.
  unfoldable pub try_receive : Act (UdpClient Socket) (Unit {0})
  try_receive s =
      if s.receiving
      then ok tt s
      else if not s.connected
      then ok tt s
      else ok tt
          (submit (async_receive_from (length s.receive_buffer)) (record s { receiving = true }))

  unfoldable pub receive_async : Act (UdpClient Socket) (Unit {0})
  unfolding try_receive
  receive_async = try_receive

  -- asio writes the sender and the datagram before it calls the handler.
  abbrev pub delivered : Endpoint → Bytes → UdpClient Socket → UdpClient Socket
  delivered endpoint bytes s = record s {
    receive_endpoint = endpoint;
    receive_buffer = bytes ++ drop (length bytes) s.receive_buffer;
  }

  -- A filled buffer that may not double: the error, and the end of the connection.
  unfoldable pub refuse_growth : Act (UdpClient Socket) (Unit {0})
  unfolding disconnect_dispatched
  refuse_growth = do send_error on no_buffer_space; disconnect_dispatched asio on

  -- The end of async_receive_handler: a buffer that was filled doubles, up to its limit.
  unfoldable pub grow : ℕ → Act (UdpClient Socket) (Unit {0})
  unfolding refuse_growth
  grow size s =
      let twice = 2 * size % 2 ^ 64 in
      if not (length s.receive_buffer == size)
      then ok tt s
      else if ltb s.receive_buffer_limit twice && ltb 0 s.receive_buffer_limit
      then refuse_growth s
      else ok tt (record s { receive_buffer = resize twice s.receive_buffer })

  -- The branches of async_receive_handler on a connected client.
  unfoldable pub finish_receive : Option ErrorCode → ℕ → Act (UdpClient Socket) (Unit {0})
  unfolding disconnect_dispatched
  finish_receive (some e) size = do send_error on e; disconnect_dispatched asio on
  finish_receive none size = do
    modify (counted_received size)
    t ← get
    call_back on (on_received t.receive_endpoint (take size t.receive_buffer))
    grow size

  -- async_receive_handler, after asio's writes.
  unfoldable pub run_receive :
      Option ErrorCode → Endpoint → Bytes → Act (UdpClient Socket) (Unit {0})
  unfolding finish_receive
  run_receive ec endpoint bytes s =
      let t = record (delivered endpoint bytes s) { receiving = false } in
      if not s.connected then ok tt t else finish_receive ec (length bytes) t
