-- ===== src/UdpClient/Stuck/Steps.antt =====
-- Every method and handler leaves a stuck client stuck.
use kernel_udp_tcp.Prelude.{false, not, ◌++◌, none, some, length, drop, ◌||◌, if◌then◌else◌}
use kernel_udp_tcp.Asio.{Asio, OpenLaws}
use kernel_udp_tcp.Asio.Action.{state, pure, state->>=, state-if, state-void}
use kernel_udp_tcp.UdpClient.{
  UdpClient, Overrides, Callback, Task, connect_handler, resolve_handler, disconnect_handler,
  join_handler, leave_handler, async_resolve, async_send_to, async_receive_from,
}
use kernel_udp_tcp.UdpClient.Connection.{
  connect, connect_resolved, disconnect, reconnect, connect_async, connect_resolved_async,
  disconnect_async, run_connect, run_resolve, run_resolved, run_disconnect,
}
use kernel_udp_tcp.UdpClient.Multicast.{join, leave, join_async, leave_async}
use kernel_udp_tcp.UdpClient.Send.{send_to, send, send_timed, send_async, run_send}
use kernel_udp_tcp.UdpClient.Step.{
  connect_call, disconnect_call, reconnect_call, connect_async_call, disconnect_async_call,
  connect_resolved_call, connect_resolved_async_call, join_call, leave_call, join_async_call,
  leave_async_call, send_call, send_to_call, send_timed_call, send_async_call, receive_call,
  receive_timed_call, receive_async_call, setup_reuse_address, setup_reuse_port, setup_multicast,
  calls, runs, here, next, Call, Completion, perform, run_task, Step, Reach,
}
use kernel_udp_tcp.UdpClient.Receive.{
  receive, receive_timed, receive_async, try_receive, run_receive,
}
use kernel_udp_tcp.UdpClient.Stuck.{
  Stuck, guard-Stuck, submitted, connect_keeps, resolved_keeps, connect_resolved_keeps,
  reconnect_keeps, send_to_keeps,
}

module _ {Socket : Type 0} (asio : Asio Socket) (IsOpen : Socket → Type 0)
    (laws : OpenLaws asio IsOpen) where
  abbrev IsStuck : UdpClient Socket → Type 0
  IsStuck = Stuck asio IsOpen laws

  module _ (on : Overrides Socket)
      (keeps : (c : Callback) (s : UdpClient Socket) → IsStuck s → IsStuck (state (on c s))) where
    -- No method leaves the state: the socket is closed by the disconnect of a connected client only.
    pub perform-Stuck :
        (c : Call Socket) (s : UdpClient Socket) → IsStuck s → IsStuck (state (perform asio on c s))
    unfolding perform disconnect reconnect connect_async connect_resolved_async disconnect_async
        join leave join_async leave_async send send_to send_timed send_async receive receive_timed
        receive_async try_receive
    perform-Stuck connect_call s h =
        state-void IsStuck (connect asio on) s (connect_keeps asio IsOpen laws on keeps s h)
    perform-Stuck disconnect_call s h =
        state-void IsStuck (disconnect asio on) s
          (guard-Stuck asio IsOpen laws on keeps false _ s h)
    perform-Stuck reconnect_call s h = state-void IsStuck (reconnect asio on) s (
        state->>= IsStuck (disconnect asio on)
          (λ done. if done then connect asio on else pure false) s
          (guard-Stuck asio IsOpen laws on keeps false _ s h)
          (reconnect_keeps asio IsOpen laws on keeps))
    perform-Stuck connect_async_call s h = state-void IsStuck (connect_async asio on) s (
        state-if IsStuck s.connected _ _ (λ _. h)
          (λ _. submitted asio IsOpen laws on keeps connect_handler s h))
    perform-Stuck disconnect_async_call s h =
        state-void IsStuck (disconnect_async asio on) s
          (guard-Stuck asio IsOpen laws on keeps false _ s h)
    perform-Stuck (connect_resolved_call b) s h =
        state-void IsStuck (connect_resolved asio on b) s
          (connect_resolved_keeps asio IsOpen laws on keeps b s h)
    perform-Stuck (connect_resolved_async_call b) s h =
        state-void IsStuck (connect_resolved_async asio on b) s (
          state-if IsStuck (not b) _ _ (λ _. h)
            (λ _.
              state-if IsStuck (s.connected || s.resolving) _ _ (λ _. h)
                (λ _. submitted asio IsOpen laws on keeps resolve_handler s h)))
    perform-Stuck (join_call a) s h = guard-Stuck asio IsOpen laws on keeps tt _ s h
    perform-Stuck (leave_call a) s h = guard-Stuck asio IsOpen laws on keeps tt _ s h
    perform-Stuck (join_async_call inside a) s h = guard-Stuck asio IsOpen laws on keeps tt _ s h
    perform-Stuck (leave_async_call inside a) s h = guard-Stuck asio IsOpen laws on keeps tt _ s h
    perform-Stuck (send_call b n) s h =
        state-void IsStuck (send asio on b n) s
          (send_to_keeps asio IsOpen laws on keeps s.endpoint b n s h)
    perform-Stuck (send_to_call e b n) s h =
        state-void IsStuck (send_to asio on e b n) s
          (send_to_keeps asio IsOpen laws on keeps e b n s h)
    perform-Stuck (send_timed_call c k e none n) s h = h
    perform-Stuck (send_timed_call c k e (some b) n) s h =
        state-void IsStuck (send_timed asio on c k e (some b) n) s
          (guard-Stuck asio IsOpen laws on keeps (some 0) _ s h)
    perform-Stuck (send_async_call e none n) s h = h
    perform-Stuck (send_async_call e (some b) n) s h =
        state-void IsStuck (send_async asio on e (some b) n) s (
          state-if IsStuck s.sending _ _ (λ _. h)
            (λ _. guard-Stuck asio IsOpen laws on keeps false _ s h))
    perform-Stuck (receive_call b n) s h =
        state-void IsStuck (receive asio on b n) s
          (guard-Stuck asio IsOpen laws on keeps none _ s h)
    perform-Stuck (receive_timed_call c k e w b n) s h =
        state-void IsStuck (receive_timed asio on c k e w b n) s
          (guard-Stuck asio IsOpen laws on keeps (some none) _ s h)
    perform-Stuck receive_async_call s h =
        state-if IsStuck s.receiving _ _ (λ _. h)
          (λ _. guard-Stuck asio IsOpen laws on keeps tt _ s h)
    perform-Stuck (setup_reuse_address b) s h = record {
      disconnected = h.disconnected;
      open_socket = h.open_socket;
    }
    perform-Stuck (setup_reuse_port b) s h = record {
      disconnected = h.disconnected;
      open_socket = h.open_socket;
    }
    perform-Stuck (setup_multicast b) s h = record {
      disconnected = h.disconnected;
      open_socket = h.open_socket;
    }

    run_task-Stuck :
        (c : Completion) (t : Task) (s : UdpClient Socket)
        → IsStuck s
        → IsStuck (state (run_task asio on c t s))
    unfolding run_task run_connect run_resolve run_resolved run_disconnect disconnect join leave
        run_send run_receive
    run_task-Stuck c connect_handler s h =
        state-void IsStuck (connect asio on) s (connect_keeps asio IsOpen laws on keeps s h)
    run_task-Stuck c resolve_handler s h =
        state-if IsStuck (s.connected || s.resolving) _ _ (λ _. h)
          (λ _. record { disconnected = h.disconnected; open_socket = h.open_socket })
    run_task-Stuck c disconnect_handler s h =
        state-void IsStuck (disconnect asio on) s
          (guard-Stuck asio IsOpen laws on keeps false _ s h)
    run_task-Stuck c (join_handler a) s h = guard-Stuck asio IsOpen laws on keeps tt _ s h
    run_task-Stuck c (leave_handler a) s h = guard-Stuck asio IsOpen laws on keeps tt _ s h
    run_task-Stuck c (async_resolve a service) s h =
        let t : UdpClient Socket = record s { resolving = false } in
        state-if IsStuck (t.connected || t.resolving) _ _
          (λ _. record { disconnected = h.disconnected; open_socket = h.open_socket })
          (λ _.
            resolved_keeps asio IsOpen laws on keeps c.answer t
              (record { disconnected = h.disconnected; open_socket = h.open_socket }))
    run_task-Stuck c (async_send_to b e) s h =
        guard-Stuck asio IsOpen laws on keeps tt _ (record s { sending = false })
          (record { disconnected = h.disconnected; open_socket = h.open_socket })
    run_task-Stuck c (async_receive_from n) s h =
        guard-Stuck asio IsOpen laws on keeps tt _
          (record s {
            receiving = false;
            receive_endpoint = c.endpoint;
            receive_buffer = c.bytes ++ drop (length c.bytes) s.receive_buffer;
          })
          (record { disconnected = h.disconnected; open_socket = h.open_socket })

    Step-Stuck : {s t : UdpClient Socket} → Step asio on s t → IsStuck s → IsStuck t
    Step-Stuck {s = s} (calls c) h = perform-Stuck c s h
    Step-Stuck {s = s} (runs before after x t c e) h =
        run_task-Stuck c t (record s { pending = before ++ after })
          (record { disconnected = h.disconnected; open_socket = h.open_socket })

    pub Reach-Stuck : {s t : UdpClient Socket} → Reach asio on s t → IsStuck s → IsStuck t
    Reach-Stuck here h = h
    Reach-Stuck (next r st) h = Step-Stuck st (Reach-Stuck r h)
