-- ===== src/UdpServer/Preserve/Lifecycle.antt =====
-- Start and Stop of UDPServer, and their handlers, keep the object well-formed.
use kernel_udp_tcp.Prelude.{Bool, true, false, ◌∷◌, Option, arith, Bool-cases, inl, inr}
use kernel_udp_tcp.Asio.{Asio, ErrorCode, reuse_address, reuse_port}
use kernel_udp_tcp.Asio.Action.{◌>>◌, state, when, modify, state->>=, state->>=_of, state-if}
use kernel_udp_tcp.UdpServer.{
  UdpServer, Overrides, executor, Task, start_handler, stop_handler, on_socket, call_back,
  on_started, on_stopped, submit,
}
use kernel_udp_tcp.UdpServer.Lifecycle.{
  open_and_bind, size_receive_buffer, run_start, start, run_stop, stop, opened, stopped,
}
use kernel_udp_tcp.UdpServer.Invariant.{
  Inv, Live, Keeps, is_send, is_receive, holds-submit, call_back-Live,
}

module _ {Socket : Type 0} (asio : Asio Socket) (on : Overrides Socket) (keeps : Keeps on) where
  on_socket-Live :
      (f : Socket → Socket × Option ErrorCode) (s : UdpServer Socket) (b : Bool)
      → Live b s
      → Live b (state (on_socket f s))
  on_socket-Live f s b h = ground arith

  when-Live :
      (c : Bool) (f : Socket → Socket × Option ErrorCode) (s : UdpServer Socket) (b : Bool)
      → Live b s
      → Live b (state (when c (on_socket f) s))
  when-Live true f s b h = on_socket-Live f s b h
  when-Live false f s b h = h

  open_and_bind-Live :
      (s : UdpServer Socket) (b : Bool) → Live b s → Live b (state (open_and_bind asio on s))
  unfolding open_and_bind
  open_and_bind-Live s b h =
      let address_option = asio.set_option (reuse_address true) in
      let port_option = asio.set_option (reuse_port true) in
      let set_address = when s.option_reuse_address (on_socket address_option) in
      let set_port = when s.option_reuse_port (on_socket port_option) in
      let bind_it = on_socket (asio.bind s.endpoint) in
      let opening = asio.open_socket s.endpoint.protocol in
      state->>= (Live b) (on_socket opening) (λ _. set_address >> (set_port >> bind_it)) s
        (on_socket-Live opening s b h)
        λ _ t ht.
          state->>= (Live b) set_address (λ _. set_port >> bind_it) t
            (when-Live s.option_reuse_address address_option t b ht)
            λ _ u hu.
              state->>= (Live b) set_port (λ _. bind_it) u
                (when-Live s.option_reuse_port port_option u b hu)
                λ _ v hv. on_socket-Live (asio.bind s.endpoint) v b hv

  size_receive_buffer-Live :
      (s : UdpServer Socket) (b : Bool) → Live b s → Live b (state (size_receive_buffer asio on s))
  unfolding size_receive_buffer
  size_receive_buffer-Live s b h = ground arith

  -- The state that the start handler hands to onStarted.
  opened-Live :
      (s : UdpServer Socket)
      → Live false s
      → Live true (record (opened asio on s) { calls = on_started ∷ s.calls })
  opened-Live s h = ground arith

  stopped-Live :
      (s : UdpServer Socket)
      → Live true s
      → Live false (record (stopped asio on s) { calls = on_stopped ∷ s.calls })
  stopped-Live s h = ground arith

  start_stopped-Inv :
      (s : UdpServer Socket)
      → Live false s
      → Inv (
          state (
            (do
              open_and_bind asio on
              size_receive_buffer asio on
              modify (opened asio on)
              call_back on on_started)
              s))
  start_stopped-Inv s h =
      state->>=_of (Live false) Inv (open_and_bind asio on)
        (λ _. (do size_receive_buffer asio on; modify (opened asio on); call_back on on_started)) s
        (λ _ ht. ht.inv) (open_and_bind-Live s false h)
        λ _ t ht.
          state->>=_of (Live false) Inv (size_receive_buffer asio on)
            (λ _. (do modify (opened asio on); call_back on on_started)) t (λ _ hu. hu.inv)
            (size_receive_buffer-Live t false ht)
            λ _ u hu.
              (call_back-Live on keeps on_started (opened asio on u) true (opened-Live u hu)).inv

  -- The start handler keeps the object well-formed, on every branch and wherever it throws.
  pub run_start-Inv : (s : UdpServer Socket) → Inv s → Inv (state (run_start asio on s))
  unfolding run_start
  run_start-Inv s h = elim (Bool-cases s.started) [
    | inl on_already ↦ simp on_already h
    | inr off ↦ simp off (start_stopped-Inv s (record { inv = h; at = off }))
  ]

  stop_started-Inv :
      (s : UdpServer Socket)
      → Live true s
      → Inv (state ((do on_socket asio.close; modify (stopped asio on); call_back on on_stopped) s))
  stop_started-Inv s h =
      state->>=_of (Live true) Inv (on_socket asio.close)
        (λ _. (do modify (stopped asio on); call_back on on_stopped)) s (λ _ ht. ht.inv)
        (on_socket-Live asio.close s true h)
        λ _ t ht.
          (call_back-Live on keeps on_stopped (stopped asio on t) false (stopped-Live t ht)).inv

  pub run_stop-Inv : (s : UdpServer Socket) → Inv s → Inv (state (run_stop asio on s))
  unfolding run_stop
  run_stop-Inv s h = elim (Bool-cases s.started) [
    | inl on_now ↦ simp on_now (stop_started-Inv s (record { inv = h; at = on_now }))
    | inr off ↦ simp off h
  ]

  pub submit-Inv : (t : Task) (s : UdpServer Socket) → Inv s → Inv (submit t s)
  submit-Inv t s h = ground (
    arith,
    holds-submit is_send s.pending (executor s.strand_required) t,
    holds-submit is_receive s.pending (executor s.strand_required) t,
  )

  pub start-Inv : (s : UdpServer Socket) → Inv s → Inv (state (start asio on s))
  unfolding start
  start-Inv s h = state-if Inv s.started _ _ (λ _. h) (λ _. submit-Inv start_handler s h)

  pub stop-Inv : (s : UdpServer Socket) → Inv s → Inv (state (stop asio on s))
  unfolding stop
  stop-Inv s h = state-if Inv s.started _ _ (λ _. submit-Inv stop_handler s h) (λ _. h)
