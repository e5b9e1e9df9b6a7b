-- ===== src/UdpClient/Preserve.antt =====
-- The connection methods of UDPClient, and their handlers, keep the object well-formed.
pub mod Handlers
pub mod Send
pub mod Receive
use kernel_udp_tcp.Prelude.{
  if◌then◌else◌, ◌≡◌, refl, Bool, true, false, not, ◌||◌, ◌∷◌, Option, none, some, arith,
  Bool-cases, inl, inr, ◌⊎◌,
}
use kernel_udp_tcp.Asio.{
  Asio, InternetProtocol, Text, invalid_argument, unsigned_short, Endpoint, ErrorCode,
  reuse_address, reuse_port, executor,
}
use kernel_udp_tcp.Asio.Action.{
  Act, Outcome, ok, throw, ◌>>=◌, ◌>>◌, state, when, modify, pure, skip, state->>=, state->>=_of,
  state-if, state-void,
}
use kernel_udp_tcp.UdpClient.{
  UdpClient, Overrides, Task, connect_handler, resolve_handler, disconnect_handler, async_resolve,
  on_socket, call_back, on_connected, on_disconnected, submit, send_error, is_positive,
}
use kernel_udp_tcp.UdpClient.Connection.{
  is_empty, local_endpoint, open_and_bind, size_receive_buffer, opened, connect_to, connect,
  service_of, unresolved, connect_resolved, closed, disconnect, reconnect, connect_async,
  run_connect, connect_resolved_async, run_resolve, run_resolved, cancelled, run_disconnect,
  disconnect_async, disconnect_dispatched,
}
use kernel_udp_tcp.UdpClient.Invariant.{
  Inv, Live, Keeps, is_send, is_receive, is_resolve, holds, holds-submit, call_back-Inv,
  send_error-Inv, send_error-Live, guarded,
}

module _ {Socket : Type 0} (asio : Asio Socket) (on : Overrides Socket) (keeps : Keeps on) where
  pub on_socket-Live :
      (f : Socket → Socket × Option ErrorCode) (s : UdpClient Socket) (b : Bool)
      → Live b s
      → Live b (state (on_socket f s))
  on_socket-Live f s b h = ground arith

  when-Live :
      (c : Bool) (f : Socket → Socket × Option ErrorCode) (s : UdpClient Socket) (b : Bool)
      → Live b s
      → Live b (state (when c (on_socket f) s))
  when-Live true f s b h = on_socket-Live f s b h
  when-Live false f s b h = h

  open_and_bind-Live :
      (s : UdpClient Socket) (b : Bool) → Live b s → Live b (state (open_and_bind asio on s))
  unfolding open_and_bind
  open_and_bind-Live s b h =
      let address_option = asio.set_option (reuse_address true) in
      let port_option = asio.set_option (reuse_port true) in
      let set_address = when s.option_reuse_address (on_socket address_option) in
      let set_port = when s.option_reuse_port (on_socket port_option) in
      let bind_it = on_socket (asio.bind (local_endpoint asio on s)) in
      let opening = asio.open_socket s.endpoint.protocol in
      state->>= (Live b) (on_socket opening) (λ _. set_address >> (set_port >> bind_it)) s
        (on_socket-Live opening s b h)
        λ _ t ht.
          state->>= (Live b) set_address (λ _. set_port >> bind_it) t
            (when-Live s.option_reuse_address address_option t b ht)
            λ _ u hu.
              state->>= (Live b) set_port (λ _. bind_it) u
                (when-Live s.option_reuse_port port_option u b hu)
                λ _ v hv. on_socket-Live (asio.bind (local_endpoint asio on s)) v b hv

  size_receive_buffer-Live :
      (s : UdpClient Socket) (b : Bool) → Live b s → Live b (state (size_receive_buffer asio on s))
  unfolding size_receive_buffer
  size_receive_buffer-Live s b h = ground arith

  -- The state that Connect hands to onConnected.
  opened-Inv :
      (s : UdpClient Socket)
      → Live false s
      → Inv (record (opened asio on s) { calls = on_connected ∷ s.calls })
  opened-Inv s h = ground arith

  pub connect_to-Inv :
      (e : Endpoint) (s : UdpClient Socket) → Live false s → Inv (state (connect_to asio on e s))
  unfolding connect_to
  connect_to-Inv e s h =
      let t : UdpClient Socket = record s { endpoint = e } in
      state->>=_of (Live false) Inv (open_and_bind asio on)
        (λ _. (do size_receive_buffer asio on; modify (opened asio on); call_back on on_connected))
        t (λ _ ht. ht.inv) (open_and_bind-Live t false (ground arith))
        λ _ u hu.
          state->>=_of (Live false) Inv (size_receive_buffer asio on)
            (λ _. (do modify (opened asio on); call_back on on_connected)) u (λ _ hv. hv.inv)
            (size_receive_buffer-Live u false hu)
            λ _ v hv. call_back-Inv on keeps on_connected (opened asio on v) (opened-Inv v hv)

  -- The rest of a method that a disconnected client goes on with.
  pub unless_connected {ℓ} :
      {A : Type ℓ} (a : A) (x : Outcome (UdpClient Socket) A) (s : UdpClient Socket)
      → Inv s
      → (Live false s → Inv (state x))
      → (c : Bool) → s.connected ≡ c
      → Inv (state (if c then ok a s else x))
  unless_connected a x s h f true e = h
  unless_connected a x s h f false e = f (record { inv = h; at = e })

  abbrev found : Endpoint → Act (UdpClient Socket) Bool
  found e = do connect_to asio on e; pure true

  found-Inv : (e : Endpoint) (s : UdpClient Socket) → Live false s → Inv (state (found e s))
  found-Inv e s l =
      state->>= Inv (connect_to asio on e) (λ _. pure true) s (connect_to-Inv e s l) (λ _ _ q. q)

  pub connect-Inv : (s : UdpClient Socket) → Inv s → Inv (state (connect asio on s))
  unfolding connect
  connect-Inv s h =
      state-if Inv (is_empty s.address) _ _ (λ _. h)
        λ _.
          state-if Inv (not (is_positive s.port)) _ _ (λ _. h)
            λ _.
              unless_connected false _ s h (λ l. go l (asio.make_address s.address)) s.connected
                refl
    where
      go :
          Live false s
          → (made : Option (InternetProtocol × Text))
          → Inv (
              state (elim made [
                | none ↦ throw invalid_argument s
                | some (protocol, host) ↦
                    found
                      (record { protocol = protocol; address = host; port = unsigned_short s.port })
                      s
              ]))
      go l none = h
      go l (some (p, a)) = found-Inv _ s l

  pub unresolved-Inv :
      (e : ErrorCode) (s : UdpClient Socket) → Live false s → Inv (state (unresolved asio on e s))
  unfolding unresolved
  unresolved-Inv e s l =
      state->>=_of (Live false) Inv (send_error on e) (λ _. call_back on on_disconnected) s
        (λ _ ht. ht.inv) (send_error-Live on keeps e s false l)
        (λ _ t ht. call_back-Inv on keeps on_disconnected t (ground arith))

  pub connect_resolved-Inv :
      (present : Bool) (s : UdpClient Socket)
      → Inv s
      → Inv (state (connect_resolved asio on present s))
  unfolding connect_resolved
  connect_resolved-Inv present s h =
      state-if Inv (not present) _ _ (λ _. h)
        λ _.
          state-if Inv (is_empty s.address) _ _ (λ _. h)
            λ _.
              state-if Inv (not (is_positive s.port)) _ _ (λ _. h)
                λ _.
                  unless_connected false _ s h
                    (λ l. go l (asio.resolve s.address (service_of asio on s))) s.connected refl
    where
      go :
          Live false s
          → (answer : ErrorCode ⊎ Endpoint)
          → Inv (
              state (elim answer [
                | inl e ↦ (do unresolved asio on e; pure false) s
                | inr endpoint ↦ found endpoint s
              ]))
      go l (inl e) =
          state->>= Inv (unresolved asio on e) (λ _. pure false) s (unresolved-Inv e s l)
            (λ _ _ q. q)
      go l (inr e) = found-Inv e s l

  closed-Inv :
      (s : UdpClient Socket)
      → Live true s
      → Inv (record (closed asio on s) { calls = on_disconnected ∷ s.calls })
  closed-Inv s h = ground arith

  pub disconnect-Inv : (s : UdpClient Socket) → Inv s → Inv (state (disconnect asio on s))
  unfolding disconnect
  disconnect-Inv s h = guarded false _ s h λ l.
      state->>=_of (Live true) Inv (on_socket asio.close)
        (λ _. (do modify (closed asio on); call_back on on_disconnected; pure true)) s
        (λ _ ht. ht.inv) (on_socket-Live asio.close s true l)
        λ _ t ht.
          state->>= Inv (call_back on on_disconnected) (λ _. pure true) (closed asio on t)
            (call_back-Inv on keeps on_disconnected (closed asio on t) (closed-Inv t ht))
            (λ _ _ q. q)

  pub reconnect-Inv : (s : UdpClient Socket) → Inv s → Inv (state (reconnect asio on s))
  unfolding reconnect
  reconnect-Inv s h =
      state->>= Inv (disconnect asio on) (λ done. if done then connect asio on else pure false) s
        (disconnect-Inv s h) (λ done t ht. go done t ht)
    where
      go :
          (done : Bool) (t : UdpClient Socket)
          → Inv t
          → Inv (state ((if done then connect asio on else pure false) t))
      go true t ht = connect-Inv t ht
      go false t ht = ht
