-- ===== src/UdpClient/Preserve/Send.antt =====
-- The sending methods of UDPClient, and their handler, keep the object well-formed.
use kernel_udp_tcp.Prelude.{
  ℕ, true, false, ◌&&◌, Option, none, some, arith, ltb, ◌==◌, take, Bool-cases, inl, inr,
  if◌then◌else◌,
}
use kernel_udp_tcp.Asio.{Asio, Bytes, Endpoint, ErrorCode, failed, no_buffer_space, executor}
use kernel_udp_tcp.Asio.Action.{◌>>=◌, ◌>>◌, state, pure, skip, state->>=, state-if, state-void}
use kernel_udp_tcp.Asio.Race.{Schedule, Race, race}
use kernel_udp_tcp.UdpClient.{UdpClient, Overrides, async_send_to, on_sent, send_error}
use kernel_udp_tcp.UdpClient.Connection.{disconnect, disconnect_dispatched}
use kernel_udp_tcp.UdpClient.Send.{
  counted_sent, sent_async, count_sent, give_up, send_bytes, timed_end, timed_wait, refuse_send,
  send_to, send, send_timed, send_async, begin_send, finish_send, run_send,
}
use kernel_udp_tcp.UdpClient.Invariant.{
  Inv, Live, Keeps, is_send, is_receive, is_resolve, holds-submit, call_back-Inv, send_error-Inv,
  guarded,
}
use kernel_udp_tcp.UdpClient.Preserve.{disconnect-Inv}
use kernel_udp_tcp.UdpClient.Preserve.Handlers.{disconnect_dispatched-Inv}

module _ {Socket : Type 0} (asio : Asio Socket) (on : Overrides Socket) (keeps : Keeps on) where
  count_sent-Inv :
      (e : Endpoint) (n : ℕ) (s : UdpClient Socket)
      → Live true s
      → Inv (state (count_sent asio on e n s))
  unfolding count_sent
  count_sent-Inv e n s h = elim (Bool-cases (ltb 0 n)) [
    | inl out ↦
        rw out (call_back-Inv on keeps (on_sent e n) (counted_sent asio on n s) (ground arith))
    | inr none_out ↦ rw none_out h.inv
  ]

  pub give_up-Inv :
      (ec : Option ErrorCode) (s : UdpClient Socket) → Inv s → Inv (state (give_up asio on ec s))
  unfolding give_up
  give_up-Inv none s h = h
  give_up-Inv (some e) s h =
      state->>= Inv (send_error on e) (λ _. disconnect asio on >>= λ _. skip) s
        (send_error-Inv on keeps e s h)
        (λ _ t ht. state-void Inv (disconnect asio on) t (disconnect-Inv asio on keeps t ht))

  send_bytes-Inv :
      (e : Endpoint) (bytes : Bytes) (s : UdpClient Socket)
      → Live true s
      → Inv (state (send_bytes asio on e bytes s))
  unfolding send_bytes
  send_bytes-Inv e bytes s h =
      let r = asio.send_to bytes e s.socket in
      let t : UdpClient Socket = record s { socket = r.0 } in
      state->>= Inv (count_sent asio on e r.1) (λ _. give_up asio on r.2 >> pure r.1) t
        (count_sent-Inv e r.1 t (ground arith))
        (λ _ u hu.
          state->>= Inv (give_up asio on r.2) (λ _. pure r.1) u (give_up-Inv r.2 u hu)
            (λ _ v hv. hv))

  timed_end-Inv :
      (e : Endpoint) (r : Race) (s : UdpClient Socket)
      → Live true s
      → Inv (state (timed_end asio on e r s))
  unfolding timed_end
  timed_end-Inv e r s h =
      let ec = if failed r.error then r.error else none in
      state->>= Inv (count_sent asio on e r.moved) (λ _. give_up asio on ec >> pure r.moved) s
        (count_sent-Inv e r.moved s h)
        (λ _ t ht.
          state->>= Inv (give_up asio on ec) (λ _. pure r.moved) t (give_up-Inv ec t ht)
            (λ _ u hu. hu))

  timed_wait-Inv :
      (e : Endpoint) (o : Option Race) (s : UdpClient Socket)
      → Live true s
      → Inv (state (timed_wait asio on e o s))
  unfolding timed_wait
  timed_wait-Inv e none s h = h.inv
  timed_wait-Inv e (some r) s h =
      state->>= Inv (timed_end asio on e r) _ s (timed_end-Inv e r s h) (λ _ t ht. ht)

  pub send_to-Inv :
      (e : Endpoint) (buffer : Option Bytes) (n : ℕ) (s : UdpClient Socket)
      → Inv s
      → Inv (state (send_to asio on e buffer n s))
  unfolding send_to
  send_to-Inv e none n s h = h
  send_to-Inv e (some buffer) n s h =
      guarded _ _ s h
        (λ l. state-if Inv (n == 0) _ _ (λ _. h) (λ _. send_bytes-Inv e (take n buffer) s l))

  pub send-Inv :
      (buffer : Option Bytes) (n : ℕ) (s : UdpClient Socket)
      → Inv s
      → Inv (state (send asio on buffer n s))
  unfolding send
  send-Inv buffer n s h = send_to-Inv s.endpoint buffer n s h

  pub send_timed-Inv :
      (c : Schedule) (k : Socket) (e : Endpoint) (buffer : Option Bytes) (n : ℕ)
      (s : UdpClient Socket)
      → Inv s
      → Inv (state (send_timed asio on c k e buffer n s))
  unfolding send_timed
  send_timed-Inv c k e none n s h = h
  send_timed-Inv c k e (some buffer) n s h = guarded _ _ s h (λ l.
      state-if Inv (n == 0) _ _ (λ _. h)
        (λ _. timed_wait-Inv e (race c) (record s { socket = k }) (ground arith)))

  refuse_send-Inv : (s : UdpClient Socket) → Inv s → Inv (state (refuse_send asio on s))
  unfolding refuse_send
  refuse_send-Inv s h =
      state->>= Inv (send_error on no_buffer_space) (λ _. pure false) s
        (send_error-Inv on keeps no_buffer_space s h) (λ _ t ht. ht)

  begin_send-Inv :
      (e : Endpoint) (bytes : Bytes) (s : UdpClient Socket)
      → Live true s
      → Inv (begin_send asio on e bytes s)
  begin_send-Inv e bytes s h = ground (
    arith,
    holds-submit is_send s.pending (executor s.strand_required) (async_send_to bytes e),
    holds-submit is_receive s.pending (executor s.strand_required) (async_send_to bytes e),
    holds-submit is_resolve s.pending (executor s.strand_required) (async_send_to bytes e),
  )

  pub send_async-Inv :
      (e : Endpoint) (buffer : Option Bytes) (n : ℕ) (s : UdpClient Socket)
      → Inv s
      → Inv (state (send_async asio on e buffer n s))
  unfolding send_async
  send_async-Inv e none n s h = h
  send_async-Inv e (some buffer) n s h =
      state-if Inv s.sending _ _ (λ _. h)
        λ _. guarded _ _ s h λ l.
          state-if Inv (n == 0) _ _ (λ _. h)
            λ _. elim (Bool-cases (ltb s.send_buffer_limit n && ltb 0 s.send_buffer_limit)) [
              | inl over ↦ rw over (refuse_send-Inv s h)
              | inr fits ↦ rw fits (begin_send-Inv e (take n buffer) s l)
            ]

  finish_send-Inv :
      (ec : Option ErrorCode) (n : ℕ) (s : UdpClient Socket)
      → Live true s
      → Inv (state (finish_send asio on ec n s))
  unfolding finish_send
  finish_send-Inv (some e) n s h =
      state->>= Inv (send_error on e) (λ _. disconnect_dispatched asio on) s
        (send_error-Inv on keeps e s h.inv) (λ _ t ht. disconnect_dispatched-Inv asio on keeps t ht)
  finish_send-Inv none n s h = elim (Bool-cases (ltb 0 n)) [
    | inl out ↦
        rw out (
          call_back-Inv on keeps (on_sent s.send_endpoint n) (sent_async asio on n s)
            (ground arith))
    | inr none_out ↦ rw none_out h.inv
  ]

  -- A state without one task, as its handler finds it: only the flag of that task may lack its
  -- operation.
  pub run_send-Inv :
      (ec : Option ErrorCode) (n : ℕ) (s : UdpClient Socket)
      → Inv (record s { sending = false })
      → Inv (state (run_send asio on ec n s))
  unfolding run_send
  run_send-Inv ec n s h =
      let t : UdpClient Socket = record s { sending = false } in
      guarded tt _ t h (λ l. finish_send-Inv ec n t l)
