-- ===== src/UdpServer/Preserve/Receive.antt =====
-- The receiving methods of UDPServer, and their handler, keep the object well-formed.
use kernel_udp_tcp.Prelude.{
  ℕ, ◌*◌, ◌%◌, ◌^◌, ◌≤◌, Bool, true, false, not, ◌&&◌, [], Option, none, some, length, arith, ltb,
  ◌==◌, Bool-cases, inl, inr, take, drop, length-take, length-append,
}
use kernel_udp_tcp.Asio.{Asio, Bytes, Endpoint, ErrorCode, no_buffer_space}
use kernel_udp_tcp.Asio.Action.{◌>>◌, state, pure, state->>=, state-if}
use kernel_udp_tcp.Asio.Race.{Schedule, Race, race}
use kernel_udp_tcp.UdpServer.{
  UdpServer, Overrides, executor, async_receive_from, call_back, on_received, send_error,
}
use kernel_udp_tcp.UdpServer.Send.{report}
use kernel_udp_tcp.UdpServer.Receive.{
  Received, counted_received, refuse_growth, receive_end, receive, receive_timed, receive_wait,
  try_receive, delivered, grow, finish_receive, run_receive,
}
use kernel_udp_tcp.UdpServer.Invariant.{
  Live, Keeps, is_send, is_receive, holds-submit, call_back-Live, send_error-Live, on_received-Live,
}
use kernel_udp_tcp.UdpServer.Preserve.{guarded, report-Live}

module _ {Socket : Type 0} (asio : Asio Socket) (on : Overrides Socket) (keeps : Keeps on) where
  receive_end-Live :
      (e : Endpoint) (bytes : Bytes) (ec : Option ErrorCode) (s : UdpServer Socket)
      → Live true s
      → Live true (state (receive_end asio on e bytes ec s))
  unfolding receive_end
  receive_end-Live e bytes ec s h =
      let v : Received = some (e, bytes) in
      state->>= (Live true) (call_back on (on_received e bytes)) (λ _. report asio on ec >> pure v)
        (counted_received asio on (length bytes) s)
        (call_back-Live on keeps (on_received e bytes) (counted_received asio on (length bytes) s)
          true (ground arith))
        (λ _ t ht.
          state->>= (Live true) (report asio on ec) (λ _. pure v) t
            (report-Live asio on keeps ec t true ht) (λ _ u hu. hu))

  pub receive-Live :
      (p : Bool) (n : ℕ) (s : UdpServer Socket) (b : Bool)
      → Live b s
      → Live b (state (receive asio on p n s))
  unfolding receive
  receive-Live p n s b h = guarded asio on keeps _ _ s b h λ l.
      state-if (Live true) (n == 0) _ _ (λ _. l)
        λ _. state-if (Live true) (not p) _ _ (λ _. l) λ _. receive_end-Live _ _ _ _ (ground arith)

  receive_wait-Live :
      (e : Endpoint) (w : Bytes) (o : Option Race) (s : UdpServer Socket)
      → Live true s
      → Live true (state (receive_wait asio on e w o s))
  unfolding receive_wait
  receive_wait-Live e w none s h = h
  receive_wait-Live e w (some r) s h =
      state->>= (Live true) (receive_end asio on e _ _) _ s (receive_end-Live e _ _ s h)
        (λ _ t ht. ht)

  pub receive_timed-Live :
      (c : Schedule) (k : Socket) (e : Endpoint) (w : Bytes) (p : Bool) (n : ℕ)
      (s : UdpServer Socket) (b : Bool)
      → Live b s
      → Live b (state (receive_timed asio on c k e w p n s))
  unfolding receive_timed
  receive_timed-Live c k e w p n s b h = guarded asio on keeps _ _ s b h λ l.
      state-if (Live true) (n == 0) _ _ (λ _. l)
        λ _.
          state-if (Live true) (not p) _ _ (λ _. l)
            λ _. receive_wait-Live e w (race c) (record s { socket = k }) (ground arith)

  pub try_receive-Live :
      (s : UdpServer Socket) (b : Bool) → Live b s → Live b (state (try_receive asio on s))
  unfolding try_receive
  try_receive-Live s b h =
      state-if (Live b) s.receiving _ _ (λ _. h)
        λ _. guarded asio on keeps tt _ s b h λ l. ground (
          arith,
          holds-submit is_send s.pending (executor s.strand_required)
              (async_receive_from (length s.receive_buffer)),
          holds-submit is_receive s.pending (executor s.strand_required)
              (async_receive_from (length s.receive_buffer)),
        )

  refuse_growth-Live :
      (s : UdpServer Socket) → Live true s → Live true (state (refuse_growth asio on s))
  unfolding refuse_growth
  refuse_growth-Live s h =
      state->>= (Live true) (send_error on no_buffer_space)
        (λ _ t. call_back on (on_received t.receive_endpoint []) t) s
        (send_error-Live on keeps no_buffer_space s true h)
        (λ _ t ht. on_received-Live on keeps t.receive_endpoint t ht)

  grow-Live : (n : ℕ) (s : UdpServer Socket) → Live true s → Live true (state (grow asio on n s))
  unfolding grow
  grow-Live n s h =
      state-if (Live true) (not (length s.receive_buffer == n)) _ _ (λ _. h)
        λ _.
          elim (Bool-cases
            (ltb s.receive_buffer_limit (2 * n % 2 ^ 64) && ltb 0 s.receive_buffer_limit)) [
              | inl over ↦ rw over (refuse_growth-Live s h)
              | inr fits ↦ rw fits (ground arith)
            ]

  finish_receive-Live :
      (ec : Option ErrorCode) (n : ℕ) (s : UdpServer Socket)
      → n ≤ length s.receive_buffer
      → Live true s
      → Live true (state (finish_receive asio on ec n s))
  unfolding finish_receive
  finish_receive-Live (some e) n s fits h =
      state->>= (Live true) (send_error on e)
        (λ _ t. call_back on (on_received t.receive_endpoint []) t) s
        (send_error-Live on keeps e s true h)
        (λ _ t ht. on_received-Live on keeps t.receive_endpoint t ht)
  finish_receive-Live none n s fits h =
      let e = s.receive_endpoint in
      let bytes : Bytes = take n s.receive_buffer in
      state->>= (Live true) (call_back on (on_received e bytes)) (λ _. grow asio on n)
        (counted_received asio on n s)
        (call_back-Live on keeps (on_received e bytes) (counted_received asio on n s) true
          (ground (arith, length-take n s.receive_buffer)))
        (λ _ t ht. grow-Live n t ht)

  pub run_receive-Live :
      (ec : Option ErrorCode) (e : Endpoint) (bytes : Bytes) (s : UdpServer Socket) (b : Bool)
      → Live b (record s { receiving = false })
      → Live b (state (run_receive asio on ec e bytes s))
  unfolding run_receive
  run_receive-Live ec e bytes s b h =
      let t : UdpServer Socket = record (delivered asio on e bytes s) { receiving = false } in
      guarded asio on keeps _ _ t b (ground arith) λ l.
        finish_receive-Live ec (length bytes) t
          (omega (arith, length-append bytes (drop (length bytes) s.receive_buffer))) l
