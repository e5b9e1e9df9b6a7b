-- ===== src/UdpServer/Reach.antt =====
-- UDPServer under every order of calls and handlers.
use kernel_udp_tcp.Prelude.{ℕ, ◌≡◌, refl, Bool, List, ◌∷◌, ◌++◌, Option, none, some, arith}
use kernel_udp_tcp.Asio.{Asio, Bytes, Endpoint, Text, InternetProtocol}
use kernel_udp_tcp.Asio.Action.{Act, ◌>>=◌, state, state->>=, skip}
use kernel_udp_tcp.UdpServer.{
  UdpServer, created, Overrides, Executor, Task, start_handler, stop_handler, async_send_to,
  async_receive_from,
}
use kernel_udp_tcp.UdpServer.Lifecycle.{start, start_multicast_at, start_multicast, stop}
use kernel_udp_tcp.UdpServer.Send.{
  send, send_timed, send_async, multicast, multicast_timed, multicast_async,
}
use kernel_udp_tcp.UdpServer.Receive.{receive, receive_timed, receive_async}
use kernel_udp_tcp.UdpServer.Step.{
  start_call, stop_call, receive_async_call, start_multicast_at_call, start_multicast_call,
  send_call, send_timed_call, send_async_call, multicast_call, multicast_timed_call,
  multicast_async_call, receive_call, receive_timed_call, setup_reuse_address, setup_reuse_port,
  setup_receive_buffer_limit, setup_send_buffer_limit, setup_receive_buffer_size,
  setup_send_buffer_size, calls, runs, here, next, Call, Completion, perform, run_task, Step, Reach,
}
use kernel_udp_tcp.UdpServer.Invariant.{Inv, Live, Keeps, is_send, is_receive, holds-remove}
use kernel_udp_tcp.UdpServer.Preserve.{send-Live, send_timed-Live, send_async-Live, run_send-Live}
use kernel_udp_tcp.UdpServer.Preserve.Receive.{
  receive-Live, receive_timed-Live, try_receive-Live, run_receive-Live,
}
use kernel_udp_tcp.UdpServer.Preserve.Lifecycle.{start-Inv, stop-Inv, run_start-Inv, run_stop-Inv}

module _ {Socket : Type 0} (asio : Asio Socket) (on : Overrides Socket) (keeps : Keeps on) where
  -- A property of the state is one of the state when the result is dropped.
  void-Inv :
      {A : Type 0} (m : Act (UdpServer Socket) A) (s : UdpServer Socket)
      → Inv (state (m s))
      → Inv (state ((m >>= λ _. skip) s))
  void-Inv m s h = state->>= Inv m (λ _. skip) s h (λ _ _ ht. ht)

  start_multicast_at-Inv :
      (e : Endpoint) (s : UdpServer Socket) → Inv s → Inv (state (start_multicast_at asio on e s))
  unfolding start_multicast_at
  start_multicast_at-Inv e s h =
      start-Inv asio on keeps (record s { multicast_endpoint = e }) (ground arith)

  start_multicast-Inv :
      (a : Text) (p : ℕ) (s : UdpServer Socket)
      → Inv s
      → Inv (state (start_multicast asio on a p s))
  unfolding start_multicast start_multicast_at
  start_multicast-Inv a p s h = go (asio.make_address a) refl
    where
      go :
          (o : Option (InternetProtocol × Text))
          → asio.make_address a ≡ o
          → Inv (state (start_multicast asio on a p s))
      go none e = rw (e, start_multicast) h
      go (some (protocol, host)) e = rw (e, start_multicast) (start_multicast_at-Inv _ s h)

  now : {s : UdpServer Socket} → Inv s → Live s.started s
  now h = record { inv = h; at = refl }

  -- Every public method keeps the object well-formed, on every branch and wherever it throws.
  pub perform-Inv :
      (c : Call Socket) (s : UdpServer Socket) → Inv s → Inv (state (perform asio on c s))
  unfolding perform multicast multicast_timed multicast_async start_multicast start_multicast_at
      receive_async
  perform-Inv start_call s h = void-Inv (start asio on) s (start-Inv asio on keeps s h)
  perform-Inv stop_call s h = void-Inv (stop asio on) s (stop-Inv asio on keeps s h)
  perform-Inv receive_async_call s h = (try_receive-Live asio on keeps s s.started (now h)).inv
  perform-Inv (start_multicast_at_call e) s h =
      void-Inv (start_multicast_at asio on e) s (start_multicast_at-Inv e s h)
  perform-Inv (start_multicast_call a p) s h =
      void-Inv (start_multicast asio on a p) s (start_multicast-Inv a p s h)
  perform-Inv (send_call e b n) s h =
      void-Inv (send asio on e b n) s (send-Live asio on keeps e b n s s.started (now h)).inv
  perform-Inv (send_timed_call c k e b n) s h =
      void-Inv (send_timed asio on c k e b n) s
        (send_timed-Live asio on keeps c k e b n s s.started (now h)).inv
  perform-Inv (send_async_call e b n) s h =
      void-Inv (send_async asio on e b n) s
        (send_async-Live asio on keeps e b n s s.started (now h)).inv
  perform-Inv (multicast_call b n) s h =
      void-Inv (multicast asio on b n) s
        (send-Live asio on keeps s.multicast_endpoint b n s s.started (now h)).inv
  perform-Inv (multicast_timed_call c k b n) s h =
      void-Inv (multicast_timed asio on c k b n) s
        (send_timed-Live asio on keeps c k s.multicast_endpoint b n s s.started (now h)).inv
  perform-Inv (multicast_async_call b n) s h =
      void-Inv (multicast_async asio on b n) s
        (send_async-Live asio on keeps s.multicast_endpoint b n s s.started (now h)).inv
  perform-Inv (receive_call b n) s h =
      void-Inv (receive asio on b n) s (receive-Live asio on keeps b n s s.started (now h)).inv
  perform-Inv (receive_timed_call c k e w b n) s h =
      void-Inv (receive_timed asio on c k e w b n) s
        (receive_timed-Live asio on keeps c k e w b n s s.started (now h)).inv
  perform-Inv (setup_reuse_address b) s h = ground arith
  perform-Inv (setup_reuse_port b) s h = ground arith
  perform-Inv (setup_receive_buffer_limit n) s h = ground arith
  perform-Inv (setup_send_buffer_limit n) s h = ground arith
  perform-Inv (setup_receive_buffer_size n) s h = ground arith
  perform-Inv (setup_send_buffer_size n) s h = ground arith

  -- The task taken out of the queue: its own flag is cleared by its handler, the other flag keeps
  -- its operation.
  pub run_task-Inv :
      (before after : List (Executor × Task)) (x : Executor) (t : Task) (c : Completion)
      (s : UdpServer Socket)
      → s.pending ≡ before ++ ((x, t) ∷ after)
      → Inv s
      → Inv (state (run_task asio on c t (record s { pending = before ++ after })))
  unfolding run_task
  run_task-Inv l r x start_handler c s e h = run_start-Inv asio on keeps _ (
      ground (
        arith,
        holds-remove is_send l r x start_handler,
        holds-remove is_receive l r x start_handler,
      ))
  run_task-Inv l r x stop_handler c s e h = run_stop-Inv asio on keeps _ (
      ground (
        arith,
        holds-remove is_send l r x stop_handler,
        holds-remove is_receive l r x stop_handler,
      ))
  run_task-Inv l r x (async_send_to b d) c s e h =
      (run_send-Live asio on keeps c.error c.moved _ s.started
        (ground (arith, holds-remove is_receive l r x (async_send_to b d)))).inv
  run_task-Inv l r x (async_receive_from n) c s e h =
      (run_receive-Live asio on keeps c.error c.endpoint c.bytes _ s.started
        (ground (arith, holds-remove is_send l r x (async_receive_from n)))).inv

  pub Step-Inv : {s t : UdpServer Socket} → Step asio on s t → Inv s → Inv t
  Step-Inv {s = s} (calls c) h = perform-Inv c s h
  Step-Inv {s = s} (runs before after x t c e) h = run_task-Inv before after x t c s e h

  pub Reach-Inv : {s t : UdpServer Socket} → Reach asio on s t → Inv s → Inv t
  Reach-Inv here h = h
  Reach-Inv (next r st) h = Step-Inv st (Reach-Inv r h)

  -- A server that a constructor made, whatever public methods are then called (each as one step)
  -- and in whatever order and with whatever outcome its handlers run, is well-formed: while it is
  -- stopped no flag is set and nothing is buffered; bytes_pending() is the size of the buffered
  -- datagram; a set flag has its operation under way; onStarted and onStopped alternate, with
  -- onReceived and onSent between them only; and the byte counters are the totals that onSent and
  -- onReceived reported since the last onStarted. The derived class is asked that its virtual
  -- methods keep the same and neither start nor stop the server on the spot.
  pub created-Reach-Inv :
      (id : Bytes) (strand_required : Bool) (socket : Socket) (unset endpoint : Endpoint)
      (address : Text) (port : ℕ) (reuse_address reuse_port : Bool) {t : UdpServer Socket}
      → Reach asio on
          (created asio id strand_required socket unset address port endpoint reuse_address
            reuse_port)
          t
      → Inv t
  created-Reach-Inv id strand_required socket unset endpoint address port ra rp r =
      Reach-Inv r (ground arith)
