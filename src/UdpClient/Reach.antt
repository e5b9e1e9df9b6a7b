-- ===== src/UdpClient/Reach.antt =====
-- UDPClient under every order of calls and handlers.
use kernel_udp_tcp.Prelude.{ℕ, ◌≡◌, refl, Bool, false, List, ◌∷◌, ◌++◌, arith}
use kernel_udp_tcp.Asio.{Asio, Bytes, Endpoint, Text, Executor}
use kernel_udp_tcp.Asio.Action.{state, state-void}
use kernel_udp_tcp.UdpClient.{
  UdpClient, created, Overrides, Task, connect_handler, resolve_handler, disconnect_handler,
  join_handler, leave_handler, async_resolve, async_send_to, async_receive_from,
}
use kernel_udp_tcp.UdpClient.Connection.{
  connect, connect_resolved, disconnect, reconnect, connect_async, connect_resolved_async,
  disconnect_async,
}
use kernel_udp_tcp.UdpClient.Send.{send_to, send, send_timed, send_async}
use kernel_udp_tcp.UdpClient.Receive.{receive, receive_timed}
use kernel_udp_tcp.UdpClient.Step.{
  connect_call, disconnect_call, reconnect_call, connect_async_call, disconnect_async_call,
  connect_resolved_call, connect_resolved_async_call, join_call, leave_call, join_async_call,
  leave_async_call, send_call, send_to_call, send_timed_call, send_async_call, receive_call,
  receive_timed_call, receive_async_call, setup_reuse_address, setup_reuse_port, setup_multicast,
  calls, runs, here, next, Call, Completion, perform, run_task, Step, Reach,
}
use kernel_udp_tcp.UdpClient.Invariant.{Inv, Keeps, is_send, is_receive, is_resolve, holds-remove}
use kernel_udp_tcp.UdpClient.Preserve.{
  connect-Inv, connect_resolved-Inv, disconnect-Inv, reconnect-Inv,
}
use kernel_udp_tcp.UdpClient.Preserve.Handlers.{
  connect_async-Inv, run_connect-Inv, connect_resolved_async-Inv, run_resolve-Inv, run_resolved-Inv,
  run_disconnect-Inv, disconnect_async-Inv, join-Inv, leave-Inv, join_async-Inv, leave_async-Inv,
}
use kernel_udp_tcp.UdpClient.Preserve.Send.{
  send_to-Inv, send-Inv, send_timed-Inv, send_async-Inv, run_send-Inv,
}
use kernel_udp_tcp.UdpClient.Preserve.Receive.{
  receive-Inv, receive_timed-Inv, receive_async-Inv, run_receive-Inv,
}

module _ {Socket : Type 0} (asio : Asio Socket) (on : Overrides Socket) (keeps : Keeps on) where
  -- Every public method keeps the object well-formed, on every branch and wherever it throws.
  pub perform-Inv :
      (c : Call Socket) (s : UdpClient Socket) → Inv s → Inv (state (perform asio on c s))
  unfolding perform
  perform-Inv connect_call s h = state-void Inv (connect asio on) s (connect-Inv asio on keeps s h)
  perform-Inv disconnect_call s h =
      state-void Inv (disconnect asio on) s (disconnect-Inv asio on keeps s h)
  perform-Inv reconnect_call s h =
      state-void Inv (reconnect asio on) s (reconnect-Inv asio on keeps s h)
  perform-Inv connect_async_call s h =
      state-void Inv (connect_async asio on) s (connect_async-Inv asio on keeps s h)
  perform-Inv disconnect_async_call s h =
      state-void Inv (disconnect_async asio on) s (disconnect_async-Inv asio on keeps s h)
  perform-Inv (connect_resolved_call b) s h =
      state-void Inv (connect_resolved asio on b) s (connect_resolved-Inv asio on keeps b s h)
  perform-Inv (connect_resolved_async_call b) s h =
      state-void Inv (connect_resolved_async asio on b) s
        (connect_resolved_async-Inv asio on keeps b s h)
  perform-Inv (join_call a) s h = join-Inv asio on keeps a s h
  perform-Inv (leave_call a) s h = leave-Inv asio on keeps a s h
  perform-Inv (join_async_call inside a) s h = join_async-Inv asio on keeps inside a s h
  perform-Inv (leave_async_call inside a) s h = leave_async-Inv asio on keeps inside a s h
  perform-Inv (send_call b n) s h =
      state-void Inv (send asio on b n) s (send-Inv asio on keeps b n s h)
  perform-Inv (send_to_call e b n) s h =
      state-void Inv (send_to asio on e b n) s (send_to-Inv asio on keeps e b n s h)
  perform-Inv (send_timed_call c k e b n) s h =
      state-void Inv (send_timed asio on c k e b n) s (send_timed-Inv asio on keeps c k e b n s h)
  perform-Inv (send_async_call e b n) s h =
      state-void Inv (send_async asio on e b n) s (send_async-Inv asio on keeps e b n s h)
  perform-Inv (receive_call b n) s h =
      state-void Inv (receive asio on b n) s (receive-Inv asio on keeps b n s h)
  perform-Inv (receive_timed_call c k e w b n) s h =
      state-void Inv (receive_timed asio on c k e w b n) s
        (receive_timed-Inv asio on keeps c k e w b n s h)
  perform-Inv receive_async_call s h = receive_async-Inv asio on keeps s h
  perform-Inv (setup_reuse_address b) s h = ground arith
  perform-Inv (setup_reuse_port b) s h = ground arith
  perform-Inv (setup_multicast b) s h = ground arith

  -- A task that is no operation under a flag, taken out of the queue.
  taken :
      (before after : List (Executor × Task)) (x : Executor) (t : Task) (s : UdpClient Socket)
      → s.pending ≡ before ++ ((x, t) ∷ after)
      → is_send t ≡ false
      → is_receive t ≡ false
      → is_resolve t ≡ false
      → Inv s
      → Inv (record s { pending = before ++ after })
  taken l r x t s e ns nr nv h = ground (
    arith,
    holds-remove is_send l r x t,
    holds-remove is_receive l r x t,
    holds-remove is_resolve l r x t,
  )

  -- The task taken out of the queue: its own flag is cleared by its handler, the other flags keep
  -- their operations.
  pub run_task-Inv :
      (before after : List (Executor × Task)) (x : Executor) (t : Task) (c : Completion)
      (s : UdpClient Socket)
      → s.pending ≡ before ++ ((x, t) ∷ after)
      → Inv s
      → Inv (state (run_task asio on c t (record s { pending = before ++ after })))
  unfolding run_task
  run_task-Inv l r x connect_handler c s e h =
      run_connect-Inv asio on keeps _ (taken l r x connect_handler s e refl refl refl h)
  run_task-Inv l r x resolve_handler c s e h =
      run_resolve-Inv asio on keeps _ (taken l r x resolve_handler s e refl refl refl h)
  run_task-Inv l r x disconnect_handler c s e h =
      run_disconnect-Inv asio on keeps _ (taken l r x disconnect_handler s e refl refl refl h)
  run_task-Inv l r x (join_handler a) c s e h =
      join-Inv asio on keeps a _ (taken l r x (join_handler a) s e refl refl refl h)
  run_task-Inv l r x (leave_handler a) c s e h =
      leave-Inv asio on keeps a _ (taken l r x (leave_handler a) s e refl refl refl h)
  run_task-Inv l r x (async_resolve a p) c s e h =
      let t = async_resolve a p in
      run_resolved-Inv asio on keeps c.answer _
        (ground (arith, holds-remove is_send l r x t, holds-remove is_receive l r x t))
  run_task-Inv l r x (async_send_to b d) c s e h =
      let t = async_send_to b d in
      run_send-Inv asio on keeps c.error c.moved _
        (ground (arith, holds-remove is_receive l r x t, holds-remove is_resolve l r x t))
  run_task-Inv l r x (async_receive_from n) c s e h =
      let t = async_receive_from n in
      run_receive-Inv asio on keeps c.error c.endpoint c.bytes _
        (ground (arith, holds-remove is_send l r x t, holds-remove is_resolve l r x t))

  pub Step-Inv : {s t : UdpClient Socket} → Step asio on s t → Inv s → Inv t
  Step-Inv {s = s} (calls c) h = perform-Inv c s h
  Step-Inv {s = s} (runs before after x t c e) h = run_task-Inv before after x t c s e h

  pub Reach-Inv : {s t : UdpClient Socket} → Reach asio on s t → Inv s → Inv t
  Reach-Inv here h = h
  Reach-Inv (next r st) h = Step-Inv st (Reach-Inv r h)

  -- A client that a constructor made, whatever public methods are then called (each as one step)
  -- and in whatever order and with whatever outcome its handlers run, is well-formed: while it is
  -- disconnected no send or receive flag is set; bytes_pending() is 0 or the size of the buffered
  -- datagram; a set flag has its operation under way; the buffers have no limit; onConnected comes
  -- only while it is disconnected, groups and datagrams are reported only while it is connected;
  -- and the byte counters are the totals that onSent and onReceived reported since the last
  -- onConnected. The derived class is asked that its virtual methods keep the same, and that
  -- onError neither connects nor disconnects the client.
  pub client-Reach-Inv :
      (id : Bytes) (strand_required : Bool) (socket : Socket) (unset endpoint : Endpoint)
      (address scheme : Text) (port : ℕ) {t : UdpClient Socket}
      → Reach asio on (created id strand_required socket unset address scheme port endpoint) t
      → Inv t
  client-Reach-Inv id strand_required socket unset endpoint address scheme port r =
      Reach-Inv r (ground arith)
