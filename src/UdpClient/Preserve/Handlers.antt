-- ===== src/UdpClient/Preserve/Handlers.antt =====
-- The asynchronous connection methods of UDPClient, the handlers they post, and the multicast groups
-- keep the object well-formed.
use kernel_udp_tcp.Prelude.{
  Bool, true, false, not, ◌||◌, ◌∷◌, Option, none, some, arith, inl, inr, ◌⊎◌,
}
use kernel_udp_tcp.Asio.{
  Asio, Text, InternetProtocol, Endpoint, ErrorCode, executor, invalid_argument, join_group,
  leave_group, SocketOption,
}
use kernel_udp_tcp.Asio.Action.{throw, ◌>>◌, state, state->>=_of, state-if, state-void}
use kernel_udp_tcp.UdpClient.{
  UdpClient, Overrides, Task, connect_handler, resolve_handler, disconnect_handler, join_handler,
  leave_handler, async_resolve, on_socket, call_back, on_joined, on_left, submit, Callback,
}
use kernel_udp_tcp.UdpClient.Connection.{
  connect_to, connect, service_of, unresolved, disconnect, connect_async, run_connect,
  connect_resolved_async, run_resolve, run_resolved, cancelled, run_disconnect, disconnect_async,
  disconnect_dispatched,
}
use kernel_udp_tcp.UdpClient.Multicast.{join, leave, join_async, leave_async}
use kernel_udp_tcp.UdpClient.Invariant.{
  Inv, Live, Keeps, is_send, is_receive, is_resolve, holds-submit, call_back-Inv, guarded,
}
use kernel_udp_tcp.UdpClient.Preserve.{
  on_socket-Live, unless_connected, connect_to-Inv, unresolved-Inv, connect-Inv, disconnect-Inv,
}

module _ {Socket : Type 0} (asio : Asio Socket) (on : Overrides Socket) (keeps : Keeps on) where
  pub submit-Inv : (t : Task) (s : UdpClient Socket) → Inv s → Inv (submit t s)
  submit-Inv t s h = ground (
    arith,
    holds-submit is_send s.pending (executor s.strand_required) t,
    holds-submit is_receive s.pending (executor s.strand_required) t,
    holds-submit is_resolve s.pending (executor s.strand_required) t,
  )

  pub connect_async-Inv : (s : UdpClient Socket) → Inv s → Inv (state (connect_async asio on s))
  unfolding connect_async
  connect_async-Inv s h =
      state-if Inv s.connected _ _ (λ _. h) (λ _. submit-Inv connect_handler s h)

  pub run_connect-Inv : (s : UdpClient Socket) → Inv s → Inv (state (run_connect asio on s))
  unfolding run_connect
  run_connect-Inv s h = state-void Inv (connect asio on) s (connect-Inv asio on keeps s h)

  pub connect_resolved_async-Inv :
      (present : Bool) (s : UdpClient Socket)
      → Inv s
      → Inv (state (connect_resolved_async asio on present s))
  unfolding connect_resolved_async
  connect_resolved_async-Inv present s h =
      state-if Inv (not present) _ _ (λ _. h)
        λ _.
          state-if Inv (s.connected || s.resolving) _ _ (λ _. h)
            (λ _. submit-Inv resolve_handler s h)

  pub run_resolve-Inv : (s : UdpClient Socket) → Inv s → Inv (state (run_resolve asio on s))
  unfolding run_resolve
  run_resolve-Inv s h =
      let t = async_resolve s.address (service_of asio on s) in
      state-if Inv (s.connected || s.resolving) _ _ (λ _. h)
        λ _. ground (
          arith,
          holds-submit is_send s.pending (executor s.strand_required) t,
          holds-submit is_receive s.pending (executor s.strand_required) t,
          holds-submit is_resolve s.pending (executor s.strand_required) t,
        )

  -- A state whose flag `resolving` may lack its operation, as the handler of it finds it.
  pub run_resolved-Inv :
      (answer : ErrorCode ⊎ Endpoint) (s : UdpClient Socket)
      → Inv (record s { resolving = false })
      → Inv (state (run_resolved asio on answer s))
  unfolding run_resolved
  run_resolved-Inv answer s h =
      unless_connected asio on keeps tt _ t h (go answer) (s.connected || false) (ground arith)
    where
      t : UdpClient Socket
      t = record s { resolving = false }

      go :
          (answer : ErrorCode ⊎ Endpoint)
          → Live false t
          → Inv (
              state (elim answer [
                | inl e ↦ unresolved asio on e t
                | inr endpoint ↦ connect_to asio on endpoint t
              ]))
      go (inl e) l = unresolved-Inv asio on keeps e t l
      go (inr e) l = connect_to-Inv asio on keeps e t l

  pub run_disconnect-Inv : (s : UdpClient Socket) → Inv s → Inv (state (run_disconnect asio on s))
  unfolding run_disconnect
  run_disconnect-Inv s h = state-void Inv (disconnect asio on) s (disconnect-Inv asio on keeps s h)

  pub disconnect_async-Inv :
      (s : UdpClient Socket) → Inv s → Inv (state (disconnect_async asio on s))
  unfolding disconnect_async
  disconnect_async-Inv s h =
      guarded false _ s h (λ l. submit-Inv disconnect_handler (cancelled asio on s) (ground arith))

  pub disconnect_dispatched-Inv :
      (s : UdpClient Socket) → Inv s → Inv (state (disconnect_dispatched asio on s))
  unfolding disconnect_dispatched
  disconnect_dispatched-Inv s h =
      guarded tt _ s h (λ l. run_disconnect-Inv (cancelled asio on s) (ground arith))

  -- A group is joined or left, or its address is refused.
  grouped-Inv :
      (o : Text → SocketOption) (c : Callback) (s : UdpClient Socket)
      → ((t : UdpClient Socket) → Live true t → Inv (record t { calls = c ∷ t.calls }))
      → Live true s
      → (made : Option (InternetProtocol × Text))
      → Inv (
          state (elim made [
            | none ↦ throw invalid_argument s
            | some (protocol, group) ↦ (do on_socket (asio.set_option (o group)); call_back on c) s
          ]))
  grouped-Inv o c s f l none = l.inv
  grouped-Inv o c s f l (some (protocol, group)) =
      state->>=_of (Live true) Inv (on_socket (asio.set_option (o group))) (λ _. call_back on c) s
        (λ _ ht. ht.inv) (on_socket-Live asio on keeps (asio.set_option (o group)) s true l)
        (λ _ t ht. call_back-Inv on keeps c t (f t ht))

  pub join-Inv : (a : Text) (s : UdpClient Socket) → Inv s → Inv (state (join asio on a s))
  unfolding join
  join-Inv a s h =
      guarded tt _ s h
        (λ l. grouped-Inv join_group (on_joined a) s (λ t ht. ground arith) l (asio.make_address a))

  pub leave-Inv : (a : Text) (s : UdpClient Socket) → Inv s → Inv (state (leave asio on a s))
  unfolding leave
  leave-Inv a s h =
      guarded tt _ s h
        (λ l. grouped-Inv leave_group (on_left a) s (λ t ht. ground arith) l (asio.make_address a))

  pub join_async-Inv :
      (inside : Bool) (a : Text) (s : UdpClient Socket)
      → Inv s
      → Inv (state (join_async asio on inside a s))
  unfolding join_async
  join_async-Inv inside a s h =
      guarded tt _ s h
        (λ l. state-if Inv inside _ _ (λ _. join-Inv a s h) (λ _. submit-Inv (join_handler a) s h))

  pub leave_async-Inv :
      (inside : Bool) (a : Text) (s : UdpClient Socket)
      → Inv s
      → Inv (state (leave_async asio on inside a s))
  unfolding leave_async
  leave_async-Inv inside a s h =
      guarded tt _ s h (λ l.
        state-if Inv inside _ _ (λ _. leave-Inv a s h) (λ _. submit-Inv (leave_handler a) s h))
