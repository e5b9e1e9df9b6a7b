-- ===== src/UdpServer/Preserve.antt =====
-- The sending methods of UDPServer, and their handler, keep the object well-formed.
pub mod Receive
pub mod Lifecycle
use kernel_udp_tcp.Prelude.{
  ℕ, ◌≡◌, refl, Bool, true, false, not, ◌||◌, ◌&&◌, List, [], ◌∷◌, ◌++◌, Option, none, some, length,
  arith, ltb, ◌==◌, Bool-cases, inl, inr, if◌then◌else◌, take,
}
use kernel_udp_tcp.Asio.{Asio, Bytes, Endpoint, ErrorCode, failed, no_buffer_space}
use kernel_udp_tcp.Asio.Action.{
  Act, Outcome, ok, throw, ◌>>=◌, ◌>>◌, state, when, modify, pure, state->>=, state-if,
}
use kernel_udp_tcp.Asio.Race.{Schedule, Race, race}
use kernel_udp_tcp.UdpServer.{
  UdpServer, Overrides, Executor, executor, Task, start_handler, stop_handler, async_send_to,
  async_receive_from, on_socket, call_back, on_sent, on_received, on_started, on_stopped,
  send_error, submit,
}
use kernel_udp_tcp.UdpServer.Send.{
  counted_sent, sent_async, count_sent, report, send_bytes, timed_end, timed_wait, refuse_send,
  send, send_timed, send_async, begin_send, finish_send, run_send,
}
use kernel_udp_tcp.UdpServer.Receive.{
  Received, counted_received, refuse_growth, receive_end, receive, receive_timed, try_receive, grow,
  finish_receive, run_receive,
}
use kernel_udp_tcp.UdpServer.Lifecycle.{
  open_and_bind, size_receive_buffer, run_start, start, run_stop, stop, opened, stopped,
}
use kernel_udp_tcp.UdpServer.Invariant.{
  Inv, Live, Keeps, is_send, is_receive, holds, holds-submit, call_back-Live, send_error-Live,
  on_sent-Live, on_received-Live,
}

module _ {Socket : Type 0} (asio : Asio Socket) (on : Overrides Socket) (keeps : Keeps on) where
  -- The guard of a started server.
  pub guarded {ℓ} :
      {A : Type ℓ} (a : A) (x : Outcome (UdpServer Socket) A) (s : UdpServer Socket) (b : Bool)
      → Live b s
      → (Live true s → Live true (state x))
      → Live b (state (if not s.started then ok a s else x))
  guarded a x s true h f = simp (h.at) (f h)
  guarded a x s false h f = simp (h.at) h

  pub report-Live :
      (ec : Option ErrorCode) (s : UdpServer Socket) (b : Bool)
      → Live b s
      → Live b (state (report asio on ec s))
  report-Live none s b h = h
  report-Live (some e) s b h = send_error-Live on keeps e s b h

  count_sent-Live :
      (e : Endpoint) (n : ℕ) (s : UdpServer Socket)
      → Live true s
      → Live true (state (count_sent asio on e n s))
  unfolding count_sent
  count_sent-Live e n s h = elim (Bool-cases (ltb 0 n)) [
    | inl out ↦
        rw out
          (call_back-Live on keeps (on_sent e n) (counted_sent asio on n s) true (ground arith))
    | inr none_out ↦ rw none_out h
  ]

  send_bytes-Live :
      (e : Endpoint) (bytes : Bytes) (s : UdpServer Socket)
      → Live true s
      → Live true (state (send_bytes asio on e bytes s))
  unfolding send_bytes
  send_bytes-Live e bytes s h =
      let r = asio.send_to bytes e s.socket in
      let t : UdpServer Socket = record s { socket = r.0 } in
      state->>= (Live true) (count_sent asio on e r.1) (λ _. report asio on r.2 >> pure r.1) t
        (count_sent-Live e r.1 t (ground arith))
        (λ _ u hu.
          state->>= (Live true) (report asio on r.2) (λ _. pure r.1) u (report-Live r.2 u true hu)
            (λ _ v hv. hv))

  timed_end-Live :
      (e : Endpoint) (r : Race) (s : UdpServer Socket)
      → Live true s
      → Live true (state (timed_end asio on e r s))
  unfolding timed_end
  timed_end-Live e r s h =
      state->>= (Live true) (count_sent asio on e r.moved) _ s (count_sent-Live e r.moved s h)
        (λ _ t ht.
          state->>= (Live true) (when (failed r.error) (report asio on r.error)) _ t
            (go (failed r.error) t ht) (λ _ u hu. hu))
    where
      go :
          (b : Bool) (t : UdpServer Socket)
          → Live true t
          → Live true (state (when b (report asio on r.error) t))
      go true t ht = report-Live r.error t true ht
      go false t ht = ht

  timed_wait-Live :
      (e : Endpoint) (o : Option Race) (s : UdpServer Socket)
      → Live true s
      → Live true (state (timed_wait asio on e o s))
  unfolding timed_wait
  timed_wait-Live e none s h = h
  timed_wait-Live e (some r) s h =
      state->>= (Live true) (timed_end asio on e r) _ s (timed_end-Live e r s h) (λ _ t ht. ht)

  pub send-Live :
      (e : Endpoint) (buffer : Option Bytes) (n : ℕ) (s : UdpServer Socket) (b : Bool)
      → Live b s
      → Live b (state (send asio on e buffer n s))
  unfolding send
  send-Live e none n s b h = h
  send-Live e (some buffer) n s b h =
      guarded _ _ s b h (λ l.
        state-if (Live true) (n == 0) _ _ (λ _. l) (λ _. send_bytes-Live e (take n buffer) s l))

  pub send_timed-Live :
      (c : Schedule) (k : Socket) (e : Endpoint) (buffer : Option Bytes) (n : ℕ)
      (s : UdpServer Socket) (b : Bool)
      → Live b s
      → Live b (state (send_timed asio on c k e buffer n s))
  unfolding send_timed
  send_timed-Live c k e none n s b h = h
  send_timed-Live c k e (some buffer) n s b h = guarded _ _ s b h (λ l.
      state-if (Live true) (n == 0) _ _ (λ _. l)
        (λ _. timed_wait-Live e (race c) (record s { socket = k }) (ground arith)))

  refuse_send-Live :
      (s : UdpServer Socket) → Live true s → Live true (state (refuse_send asio on s))
  unfolding refuse_send
  refuse_send-Live s h =
      state->>= (Live true) (send_error on no_buffer_space) _ s
        (send_error-Live on keeps no_buffer_space s true h)
        (λ _ t ht.
          state->>= (Live true) (call_back on (on_sent t.send_endpoint 0)) _ t
            (on_sent-Live on keeps t.send_endpoint t ht) (λ _ u hu. hu))

  begin_send-Live :
      (e : Endpoint) (bytes : Bytes) (s : UdpServer Socket)
      → Live true s
      → Live true (begin_send asio on e bytes s)
  begin_send-Live e bytes s h = ground (
    arith,
    holds-submit is_send s.pending (executor s.strand_required) (async_send_to bytes e),
    holds-submit is_receive s.pending (executor s.strand_required) (async_send_to bytes e),
  )

  pub send_async-Live :
      (e : Endpoint) (buffer : Option Bytes) (n : ℕ) (s : UdpServer Socket) (b : Bool)
      → Live b s
      → Live b (state (send_async asio on e buffer n s))
  unfolding send_async
  send_async-Live e none n s b h = h
  send_async-Live e (some buffer) n s b h =
      state-if (Live b) s.sending _ _ (λ _. h)
        λ _. guarded _ _ s b h λ l.
          state-if (Live true) (n == 0) _ _ (λ _. l)
            λ _. elim (Bool-cases (ltb s.send_buffer_limit n && ltb 0 s.send_buffer_limit)) [
              | inl over ↦ rw over (refuse_send-Live s l)
              | inr fits ↦ rw fits (begin_send-Live e (take n buffer) s l)
            ]

  finish_send-Live :
      (ec : Option ErrorCode) (n : ℕ) (s : UdpServer Socket)
      → Live true s
      → Live true (state (finish_send asio on ec n s))
  unfolding finish_send
  finish_send-Live (some e) n s h =
      state->>= (Live true) (send_error on e) (λ _ t. call_back on (on_sent t.send_endpoint 0) t) s
        (send_error-Live on keeps e s true h) (λ _ t ht. on_sent-Live on keeps t.send_endpoint t ht)
  finish_send-Live none n s h = elim (Bool-cases (ltb 0 n)) [
    | inl out ↦ rw out (
        call_back-Live on keeps (on_sent s.send_endpoint n) (sent_async asio on n s) true
          (ground arith))
    | inr none_out ↦ rw none_out h
  ]

  -- A state without one task, as its handler finds it: only the flag of that task may lack its
  -- operation.
  pub run_send-Live :
      (ec : Option ErrorCode) (n : ℕ) (s : UdpServer Socket) (b : Bool)
      → Live b (record s { sending = false })
      → Live b (state (run_send asio on ec n s))
  unfolding run_send
  run_send-Live ec n s b h =
      guarded _ _ (record s { sending = false }) b h
        λ l. finish_send-Live ec n (record s { sending = false }) l
