-- ===== src/UdpServer/Send.antt =====
-- Send, SendAsync and Multicast of UDPServer. A buffer is `none` where the source has nullptr; of
-- the bytes behind a pointer the first `size` are the datagram.
use kernel_udp_tcp.Prelude.{
  ℕ, Bool, true, false, not, ◌&&◌, [], Option, none, some, length, take, ltb, ◌==◌, if◌then◌else◌,
}
use kernel_udp_tcp.Asio.{Asio, Bytes, Endpoint, ErrorCode, no_buffer_space, failed}
use kernel_udp_tcp.Asio.Action.{Act, ok, ◌>>=◌, ◌>>◌, modify, get, pure, when, skip}
use kernel_udp_tcp.Asio.Race.{Schedule, Race, race}
use kernel_udp_tcp.UdpServer.{
  UdpServer, Overrides, async_send_to, on_sent, add64, submit, call_back, send_error,
}

module _ {Socket : Type 0} (asio : Asio Socket) (on : Overrides Socket) where
  abbrev pub counted_sent : ℕ → UdpServer Socket → UdpServer Socket
  counted_sent sent s = record s {
    datagrams_sent = add64 s.datagrams_sent 1;
    bytes_sent = add64 s.bytes_sent sent;
  }

  -- The statistics and onSent of a datagram that went out.
  unfoldable pub count_sent : Endpoint → ℕ → Act (UdpServer Socket) (Unit {0})
  count_sent endpoint sent =
      when (ltb 0 sent) (do modify (counted_sent sent); call_back on (on_sent endpoint sent))

  abbrev pub report : Option ErrorCode → Act (UdpServer Socket) (Unit {0})
  report none = skip
  report (some e) = send_error on e

  unfoldable pub send_bytes : Endpoint → Bytes → Act (UdpServer Socket) ℕ
  unfolding count_sent
  send_bytes endpoint bytes s =
      let r = asio.send_to bytes endpoint s.socket in
      (do count_sent endpoint r.1; report r.2; pure r.1) (record s { socket = r.0 })

  unfoldable pub send : Endpoint → Option Bytes → ℕ → Act (UdpServer Socket) ℕ
  unfolding send_bytes
  send endpoint none size s = ok 0 s
  send endpoint (some buffer) size s =
      if not s.started
      then ok 0 s
      else if size == 0
      then ok 0 s
      else send_bytes endpoint (take size buffer) s

  -- With a timeout: `after` is the socket when both handlers have run.
  -- The end of the timed Send, when the race is over.
  unfoldable pub timed_end : Endpoint → Race → Act (UdpServer Socket) ℕ
  unfolding count_sent
  timed_end endpoint r = do
    count_sent endpoint r.moved
    when (failed r.error) (report r.error)
    pure r.moved

  -- The method itself is over when its wait is: `none` means that it waits for ever.
  unfoldable pub timed_wait : Endpoint → Option Race → Act (UdpServer Socket) (Option ℕ)
  unfolding timed_end
  timed_wait endpoint none = pure none
  timed_wait endpoint (some r) = do n ← timed_end endpoint r; pure (some n)

  unfoldable pub send_timed :
      Schedule → Socket → Endpoint → Option Bytes → ℕ → Act (UdpServer Socket) (Option ℕ)
  unfolding timed_wait
  send_timed schedule after endpoint none size s = ok (some 0) s
  send_timed schedule after endpoint (some buffer) size s =
      if not s.started
      then ok (some 0) s
      else if size == 0
      then ok (some 0) s
      else timed_wait endpoint (race schedule) (record s { socket = after })

  -- The operation takes over the datagram: _send_buffer, its size and its endpoint.
  abbrev pub begin_send : Endpoint → Bytes → UdpServer Socket → UdpServer Socket
  begin_send endpoint bytes s = submit (async_send_to bytes endpoint) (record s {
    send_buffer = bytes;
    bytes_sending = length bytes;
    send_endpoint = endpoint;
    sending = true;
  })

  -- A datagram above the limit: the error, and onSent with nothing sent.
  unfoldable pub refuse_send : Act (UdpServer Socket) Bool
  refuse_send = do
    send_error on no_buffer_space
    t ← get
    call_back on (on_sent t.send_endpoint 0)
    pure false

  unfoldable pub send_async : Endpoint → Option Bytes → ℕ → Act (UdpServer Socket) Bool
  unfolding refuse_send
  send_async endpoint none size s = ok (not s.sending && s.started && size == 0) s
  send_async endpoint (some buffer) size s =
      if s.sending
      then ok false s
      else if not s.started
      then ok false s
      else if size == 0
      then ok true s
      else if ltb s.send_buffer_limit size && ltb 0 s.send_buffer_limit
      then refuse_send s
      else ok true (begin_send endpoint (take size buffer) s)

  abbrev pub sent_async : ℕ → UdpServer Socket → UdpServer Socket
  sent_async sent s = record s {
    bytes_sending = 0;
    bytes_sent = add64 s.bytes_sent sent;
    send_buffer = [];
  }

  -- The branches of async_send_to_handler on a started server.
  unfoldable pub finish_send : Option ErrorCode → ℕ → Act (UdpServer Socket) (Unit {0})
  finish_send (some e) sent = do send_error on e; t ← get; call_back on (on_sent t.send_endpoint 0)
  finish_send none sent =
      when (ltb 0 sent)
        (do modify (sent_async sent); t ← get; call_back on (on_sent t.send_endpoint sent))

  -- async_send_to_handler
  unfoldable pub run_send : Option ErrorCode → ℕ → Act (UdpServer Socket) (Unit {0})
  unfolding finish_send
  run_send ec sent s =
      let t = record s { sending = false } in
      if not s.started then ok tt t else finish_send ec sent t

  unfoldable pub multicast : Option Bytes → ℕ → Act (UdpServer Socket) ℕ
  unfolding send
  multicast buffer size s = send s.multicast_endpoint buffer size s

  unfoldable pub multicast_timed :
      Schedule → Socket → Option Bytes → ℕ → Act (UdpServer Socket) (Option ℕ)
  unfolding send_timed
  multicast_timed schedule after buffer size s =
      send_timed schedule after s.multicast_endpoint buffer size s

  unfoldable pub multicast_async : Option Bytes → ℕ → Act (UdpServer Socket) Bool
  unfolding send_async
  multicast_async buffer size s = send_async s.multicast_endpoint buffer size s
