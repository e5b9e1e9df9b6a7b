-- ===== src/UdpClient/Stuck.antt =====
-- A disconnected client whose socket is open, as a connect that fails after its first call leaves it:
-- nothing closes the socket again.
pub mod Steps
pub mod Failure
use kernel_udp_tcp.Prelude.{
  ℕ, ◌≡◌, refl, ap, subst, sym, Bool, true, false, not, List, ◌∷◌, ◌++◌, Option, none, some, ◌⊎◌,
  inl, inr, length, drop, arith, ◌||◌, if◌then◌else◌,
}
use kernel_udp_tcp.Asio.{
  Asio, Bytes, OpenLaws, InternetProtocol, Text, ErrorCode, SocketOption, already_open,
  invalid_argument, is_reported, Endpoint, unsigned_short,
}
use kernel_udp_tcp.Asio.Action.{
  Act, Outcome, ok, throw, ◌>>=◌, ◌>>◌, state, when, skip, modify, pure, state->>=, state-if,
  state-void,
}
use kernel_udp_tcp.UdpClient.{
  UdpClient, Overrides, Callback, on_error, on_disconnected, Task, connect_handler, resolve_handler,
  disconnect_handler, join_handler, leave_handler, async_resolve, async_send_to, async_receive_from,
  on_socket, call_back, send_error, submit, is_positive,
}
use kernel_udp_tcp.UdpClient.Connection.{
  open_and_bind, size_receive_buffer, opened, connect_to, connect, connect_resolved, disconnect,
  reconnect, connect_async, connect_resolved_async, disconnect_async, unresolved, run_connect,
  run_resolve, run_resolved, run_disconnect, is_empty, service_of,
}
use kernel_udp_tcp.UdpClient.Multicast.{join, leave, join_async, leave_async}
use kernel_udp_tcp.UdpClient.Send.{send_to, send, send_timed, send_async, run_send}
use kernel_udp_tcp.UdpClient.Step.{
  connect_call, disconnect_call, reconnect_call, connect_async_call, disconnect_async_call,
  connect_resolved_call, connect_resolved_async_call, join_call, leave_call, join_async_call,
  leave_async_call, send_call, send_to_call, send_timed_call, send_async_call, receive_call,
  receive_timed_call, receive_async_call, setup_reuse_address, setup_reuse_port, setup_multicast,
  calls, runs, here, next, Call, Completion, perform, run_task, Step, Reach,
}
use kernel_udp_tcp.UdpClient.Receive.{
  receive, receive_timed, receive_async, try_receive, run_receive,
}

module _ {Socket : Type 0} (asio : Asio Socket) (IsOpen : Socket → Type 0)
    (laws : OpenLaws asio IsOpen) where
  -- Disconnected, with the socket open.
  pub record Stuck (s : UdpClient Socket) : Type 0 where
    pub disconnected : s.connected ≡ false
    pub open_socket : IsOpen s.socket

  pub on_socket-Stuck :
      (f : Socket → Socket × Option ErrorCode) (s : UdpClient Socket)
      → ((k : Socket) → IsOpen k → IsOpen (f k).0)
      → Stuck s
      → Stuck (state (on_socket f s))
  on_socket-Stuck f s keep h = go (f s.socket) (keep s.socket h.open_socket)
    where
      go :
          (r : Socket × Option ErrorCode)
          → IsOpen r.0
          → Stuck (
              state {S = UdpClient Socket} {A = Unit {0}} (elim (r.1) [
                | none ↦ ok tt (record s { socket = r.0 })
                | some e ↦ throw e (record s { socket = r.0 })
              ]))
      go (k, none) o = record { disconnected = h.disconnected; open_socket = o }
      go (k, some e) o = record { disconnected = h.disconnected; open_socket = o }

  module _ (on : Overrides Socket)
      (keeps : (c : Callback) (s : UdpClient Socket) → Stuck s → Stuck (state (on c s))) where
    pub connect_to-Stuck :
        (e : Endpoint) (s : UdpClient Socket)
        → Stuck s
        → connect_to asio on e s ≡ throw already_open (record s { endpoint = e })
    unfolding connect_to open_and_bind
    connect_to-Stuck e s h = ground (arith, laws.refuses e.protocol s.socket h.open_socket)

    pub submitted : (t : Task) (s : UdpClient Socket) → Stuck s → Stuck (submit t s)
    submitted t s h = record { disconnected = h.disconnected; open_socket = h.open_socket }

    -- A disconnected client returns at the guard.
    pub guard-Stuck {ℓ} :
        {A : Type ℓ} (a : A) (x : Outcome (UdpClient Socket) A) (s : UdpClient Socket)
        → Stuck s
        → Stuck (state (if not s.connected then ok a s else x))
    guard-Stuck a x s h = simp (h.disconnected) h

    connect_to_keeps :
        (e : Endpoint) (s : UdpClient Socket) → Stuck s → Stuck (state (connect_to asio on e s))
    connect_to_keeps e s h =
        subst (λ o. Stuck (state o)) (sym (connect_to-Stuck e s h))
          (record { disconnected = h.disconnected; open_socket = h.open_socket })

    called : (c : Callback) (s : UdpClient Socket) → Stuck s → Stuck (state (call_back on c s))
    called c s h =
        keeps c (record s { calls = c ∷ s.calls })
          (record { disconnected = h.disconnected; open_socket = h.open_socket })

    pub connect_keeps : (s : UdpClient Socket) → Stuck s → Stuck (state (connect asio on s))
    unfolding connect
    connect_keeps s h =
        state-if Stuck (is_empty s.address) _ _ (λ _. h)
          (λ _.
            state-if Stuck (not (is_positive s.port)) _ _ (λ _. h)
              (λ _.
                state-if Stuck s.connected _ _ (λ _. h) (λ _. go (asio.make_address s.address))))
      where
        go :
            (o : Option (InternetProtocol × Text))
            → Stuck (
                state {S = UdpClient Socket} {A = Bool} (elim o [
                  | none ↦ throw invalid_argument s
                  | some (protocol, host) ↦
                      (connect_to asio on (record {
                        protocol = protocol;
                        address = host;
                        port = unsigned_short s.port;
                      })
                          >> pure true)
                        s
                ]))
        go none = h
        go (some (protocol, host)) =
            let e : Endpoint = record {
              protocol = protocol;
              address = host;
              port = unsigned_short s.port;
            } in
            state->>= Stuck (connect_to asio on e) (λ _. pure true) s (connect_to_keeps e s h)
              (λ _ _ k. k)

    error_keeps :
        (b : Bool) (e : ErrorCode) (s : UdpClient Socket)
        → Stuck s
        → Stuck (state (when b (call_back on (on_error e)) s))
    error_keeps true e s h = called (on_error e) s h
    error_keeps false e s h = h

    -- An error and the end of a resolution only call the virtual methods.
    unresolved_keeps :
        (e : ErrorCode) (s : UdpClient Socket) → Stuck s → Stuck (state (unresolved asio on e s))
    unfolding unresolved
    unresolved_keeps e s h =
        state->>= Stuck (send_error on e) (λ _. call_back on on_disconnected) s
          (error_keeps (is_reported e) e s h) (λ _ t k. called on_disconnected t k)

    pub resolved_keeps :
        (answer : ErrorCode ⊎ Endpoint) (s : UdpClient Socket)
        → Stuck s
        → Stuck (
            state {S = UdpClient Socket} {A = Unit {0}} (elim answer [
              | inl e ↦ unresolved asio on e s
              | inr endpoint ↦ connect_to asio on endpoint s
            ]))
    resolved_keeps (inl e) s h = unresolved_keeps e s h
    resolved_keeps (inr endpoint) s h = connect_to_keeps endpoint s h

    pub connect_resolved_keeps :
        (present : Bool) (s : UdpClient Socket)
        → Stuck s
        → Stuck (state (connect_resolved asio on present s))
    unfolding connect_resolved
    connect_resolved_keeps present s h =
        state-if Stuck (not present) _ _ (λ _. h)
          (λ _.
            state-if Stuck (is_empty s.address) _ _ (λ _. h)
              (λ _.
                state-if Stuck (not (is_positive s.port)) _ _ (λ _. h)
                  (λ _.
                    state-if Stuck s.connected _ _ (λ _. h)
                      (λ _. go (asio.resolve s.address (service_of asio on s))))))
      where
        go :
            (answer : ErrorCode ⊎ Endpoint)
            → Stuck (
                state {S = UdpClient Socket} {A = Bool} (elim answer [
                  | inl e ↦ (unresolved asio on e >> pure false) s
                  | inr endpoint ↦ (connect_to asio on endpoint >> pure true) s
                ]))
        go (inl e) =
            state->>= Stuck (unresolved asio on e) (λ _. pure false) s (unresolved_keeps e s h)
              (λ _ _ k. k)
        go (inr endpoint) =
            state->>= Stuck (connect_to asio on endpoint) (λ _. pure true) s
              (connect_to_keeps endpoint s h) (λ _ _ k. k)

    pub reconnect_keeps :
        (done : Bool) (s : UdpClient Socket)
        → Stuck s
        → Stuck (state ((if done then connect asio on else pure false) s))
    reconnect_keeps true s h = connect_keeps s h
    reconnect_keeps false s h = h

    pub send_to_keeps :
        (e : Endpoint) (b : Option Bytes) (n : ℕ) (s : UdpClient Socket)
        → Stuck s
        → Stuck (state (send_to asio on e b n s))
    unfolding send_to
    send_to_keeps e none n s h = h
    send_to_keeps e (some b) n s h = guard-Stuck 0 _ s h
