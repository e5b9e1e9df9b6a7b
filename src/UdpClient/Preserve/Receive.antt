-- ===== src/UdpClient/Preserve/Receive.antt =====
-- The receiving methods of UDPClient, and their handler, keep the object well-formed.
use kernel_udp_tcp.Prelude.{
  ◌≤◌, drop, length-append, length-take, ℕ, ◌*◌, ◌%◌, ◌^◌, Bool, true, false, not, ◌&&◌, Option,
  none, some, arith, ltb, ◌==◌, take, Bool-cases, inl, inr, length,
}
use kernel_udp_tcp.Asio.{Asio, Bytes, Endpoint, ErrorCode, no_buffer_space, executor}
use kernel_udp_tcp.Asio.Action.{◌>>◌, state, pure, state->>=, state-if}
use kernel_udp_tcp.Asio.Race.{Schedule, Race, race}
use kernel_udp_tcp.UdpClient.{
  UdpClient, Overrides, async_receive_from, on_received, call_back, send_error,
}
use kernel_udp_tcp.UdpClient.Connection.{disconnect_dispatched}
use kernel_udp_tcp.UdpClient.Send.{give_up}
use kernel_udp_tcp.UdpClient.Receive.{
  counted_received, count_received, receive_end, receive, receive_timed, receive_wait, try_receive,
  receive_async, delivered, refuse_growth, grow, finish_receive, run_receive,
}
use kernel_udp_tcp.UdpClient.Invariant.{
  Inv, Live, Keeps, is_send, is_receive, is_resolve, holds-submit, call_back-Inv, send_error-Inv,
  guarded,
}
use kernel_udp_tcp.UdpClient.Preserve.Handlers.{disconnect_dispatched-Inv}
use kernel_udp_tcp.UdpClient.Preserve.Send.{give_up-Inv}

module _ {Socket : Type 0} (asio : Asio Socket) (on : Overrides Socket) (keeps : Keeps on) where
  receive_end-Inv :
      (e : Endpoint) (bytes : Bytes) (ec : Option ErrorCode) (s : UdpClient Socket)
      → Live true s
      → Inv (state (receive_end asio on e bytes ec s))
  unfolding receive_end count_received
  receive_end-Inv e bytes ec s h =
      state->>= Inv (count_received asio on e bytes)
        (λ _. give_up asio on ec >> pure (some (e, bytes))) s
        (call_back-Inv on keeps (on_received e bytes) (counted_received asio on (length bytes) s)
          (ground arith))
        (λ _ t ht.
          state->>= Inv (give_up asio on ec) (λ _. pure (some (e, bytes))) t
            (give_up-Inv asio on keeps ec t ht) (λ _ u hu. hu))

  pub receive-Inv :
      (present : Bool) (n : ℕ) (s : UdpClient Socket)
      → Inv s
      → Inv (state (receive asio on present n s))
  unfolding receive
  receive-Inv present n s h = guarded _ _ s h λ l.
      state-if Inv (n == 0) _ _ (λ _. h)
        λ _.
          state-if Inv (not present) _ _ (λ _. h)
            λ _.
              receive_end-Inv _ _ _ (record s { socket = (asio.receive_from n s.socket).0 })
                (ground arith)

  receive_wait-Inv :
      (e : Endpoint) (w : Bytes) (o : Option Race) (s : UdpClient Socket)
      → Live true s
      → Inv (state (receive_wait asio on e w o s))
  unfolding receive_wait
  receive_wait-Inv e w none s h = h.inv
  receive_wait-Inv e w (some r) s h =
      state->>= Inv (receive_end asio on e _ _) _ s (receive_end-Inv e _ _ s h) (λ _ t ht. ht)

  pub receive_timed-Inv :
      (c : Schedule) (k : Socket) (e : Endpoint) (written : Bytes) (present : Bool) (n : ℕ)
      (s : UdpClient Socket)
      → Inv s
      → Inv (state (receive_timed asio on c k e written present n s))
  unfolding receive_timed
  receive_timed-Inv c k e written present n s h = guarded _ _ s h λ l.
      state-if Inv (n == 0) _ _ (λ _. h)
        λ _.
          state-if Inv (not present) _ _ (λ _. h)
            λ _. receive_wait-Inv e written (race c) (record s { socket = k }) (ground arith)

  pub try_receive-Inv : (s : UdpClient Socket) → Inv s → Inv (state (try_receive asio on s))
  unfolding try_receive
  try_receive-Inv s h =
      let t = async_receive_from (length s.receive_buffer) in
      state-if Inv s.receiving _ _ (λ _. h)
        λ _. guarded _ _ s h λ l. ground (
          arith,
          holds-submit is_send s.pending (executor s.strand_required) t,
          holds-submit is_receive s.pending (executor s.strand_required) t,
          holds-submit is_resolve s.pending (executor s.strand_required) t,
        )

  pub receive_async-Inv : (s : UdpClient Socket) → Inv s → Inv (state (receive_async asio on s))
  unfolding receive_async
  receive_async-Inv s h = try_receive-Inv s h

  refuse_growth-Inv : (s : UdpClient Socket) → Inv s → Inv (state (refuse_growth asio on s))
  unfolding refuse_growth
  refuse_growth-Inv s h =
      state->>= Inv (send_error on no_buffer_space) (λ _. disconnect_dispatched asio on) s
        (send_error-Inv on keeps no_buffer_space s h)
        (λ _ t ht. disconnect_dispatched-Inv asio on keeps t ht)

  grow-Inv : (n : ℕ) (s : UdpClient Socket) → Inv s → Inv (state (grow asio on n s))
  unfolding grow
  grow-Inv n s h =
      let twice = 2 * n % 2 ^ 64 in
      state-if Inv (not (length s.receive_buffer == n)) _ _ (λ _. h)
        λ _. elim (Bool-cases (ltb s.receive_buffer_limit twice && ltb 0 s.receive_buffer_limit)) [
          | inl over ↦ rw over (refuse_growth-Inv s h)
          | inr fits ↦ rw fits (ground arith)
        ]

  finish_receive-Inv :
      (ec : Option ErrorCode) (n : ℕ) (s : UdpClient Socket)
      → n ≤ length s.receive_buffer
      → Live true s
      → Inv (state (finish_receive asio on ec n s))
  unfolding finish_receive
  finish_receive-Inv (some e) n s fits h =
      state->>= Inv (send_error on e) (λ _. disconnect_dispatched asio on) s
        (send_error-Inv on keeps e s h.inv) (λ _ t ht. disconnect_dispatched-Inv asio on keeps t ht)
  finish_receive-Inv none n s fits h =
      let e = s.receive_endpoint in
      let bytes : Bytes = take n s.receive_buffer in
      state->>= Inv (call_back on (on_received e bytes)) (λ _. grow asio on n)
        (counted_received asio on n s)
        (call_back-Inv on keeps (on_received e bytes) (counted_received asio on n s)
          (ground (arith, length-take n s.receive_buffer)))
        (λ _ t ht. grow-Inv n t ht)

  -- A state without one task, as its handler finds it, before asio's writes.
  pub run_receive-Inv :
      (ec : Option ErrorCode) (e : Endpoint) (bytes : Bytes) (s : UdpClient Socket)
      → Inv (record s { receiving = false })
      → Inv (state (run_receive asio on ec e bytes s))
  unfolding run_receive
  run_receive-Inv ec e bytes s h =
      let t : UdpClient Socket = record (delivered asio on e bytes s) { receiving = false } in
      guarded tt _ t (ground arith) λ l.
        finish_receive-Inv ec (length bytes) t
          (omega (arith, length-append bytes (drop (length bytes) s.receive_buffer))) l
