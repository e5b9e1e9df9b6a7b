-- ===== src/UdpServer/Stuck.antt =====
-- A stopped server whose socket is open, as a start that fails after its first call leaves it:
-- nothing closes the socket again.
pub mod Failure
use kernel_udp_tcp.Prelude.{
  ℕ, ◌%◌, ◌^◌, ◌≡◌, refl, ap, Bool, true, false, not, List, ◌++◌, Option, none, some, length, drop,
  arith, if◌then◌else◌,
}
use kernel_udp_tcp.Asio.{
  Asio, Bytes, OpenLaws, InternetProtocol, Text, ErrorCode, SocketOption, already_open,
  receive_buffer_size, send_buffer_size, Endpoint,
}
use kernel_udp_tcp.Asio.Action.{
  Act, Outcome, ok, throw, ◌>>=◌, ◌>>◌, state, when, skip, modify, state->>=, state-if, state-void,
}
use kernel_udp_tcp.Asio.Race.{Schedule}
use kernel_udp_tcp.UdpServer.{
  UdpServer, Overrides, Executor, Task, start_handler, stop_handler, async_send_to,
  async_receive_from, on_socket, call_back, on_started,
}
use kernel_udp_tcp.UdpServer.Lifecycle.{
  open_and_bind, size_receive_buffer, opened, run_start, run_stop, start, start_multicast_at,
  start_multicast, stop,
}
use kernel_udp_tcp.UdpServer.Send.{
  send, send_timed, send_async, multicast, multicast_timed, multicast_async, run_send,
}
use kernel_udp_tcp.UdpServer.Receive.{
  receive, receive_timed, try_receive, receive_async, run_receive,
}
use kernel_udp_tcp.UdpServer.Step.{
  start_call, stop_call, receive_async_call, start_multicast_at_call, start_multicast_call,
  send_call, send_timed_call, send_async_call, multicast_call, multicast_timed_call,
  multicast_async_call, receive_call, receive_timed_call, setup_reuse_address, setup_reuse_port,
  setup_receive_buffer_limit, setup_send_buffer_limit, setup_receive_buffer_size,
  setup_send_buffer_size, calls, runs, here, next, Call, Completion, perform, run_task, Step, Reach,
}

module _ {Socket : Type 0} (asio : Asio Socket) (on : Overrides Socket) (IsOpen : Socket → Type 0)
    (laws : OpenLaws asio IsOpen) where
  -- Stopped, with the socket open.
  pub record Stuck (s : UdpServer Socket) : Type 0 where
    pub stopped : s.started ≡ false
    pub open_socket : IsOpen s.socket

  pub on_socket-Stuck :
      (f : Socket → Socket × Option ErrorCode) (s : UdpServer Socket)
      → ((k : Socket) → IsOpen k → IsOpen (f k).0)
      → Stuck s
      → Stuck (state (on_socket f s))
  on_socket-Stuck f s keep h = go (f s.socket) (keep s.socket h.open_socket)
    where
      go :
          (r : Socket × Option ErrorCode)
          → IsOpen r.0
          → Stuck (
              state {S = UdpServer Socket} {A = Unit {0}} (elim (r.1) [
                | none ↦ ok tt (record s { socket = r.0 })
                | some e ↦ throw e (record s { socket = r.0 })
              ]))
      go (k, none) o = record { stopped = h.stopped; open_socket = o }
      go (k, some e) o = record { stopped = h.stopped; open_socket = o }

  pub start-Stuck : (s : UdpServer Socket) → Stuck s → run_start asio on s ≡ throw already_open s
  unfolding run_start
  start-Stuck s h = ground (arith, laws.refuses s.endpoint.protocol s.socket h.open_socket)

  -- A stopped server returns at the guard.
  stopped_guard {ℓ} :
      {A : Type ℓ} (a : A) (x : Outcome (UdpServer Socket) A) (s : UdpServer Socket)
      → Stuck s
      → Stuck (state (if not s.started then ok a s else x))
  stopped_guard a x s h = simp (h.stopped) h

  send-Stuck :
      (e : Endpoint) (b : Option Bytes) (n : ℕ) (s : UdpServer Socket)
      → Stuck s
      → Stuck (state (send asio on e b n s))
  unfolding send
  send-Stuck e none n s h = h
  send-Stuck e (some b) n s h = stopped_guard 0 _ s h

  send_timed-Stuck :
      (c : Schedule) (k : Socket) (e : Endpoint) (b : Option Bytes) (n : ℕ) (s : UdpServer Socket)
      → Stuck s
      → Stuck (state (send_timed asio on c k e b n s))
  unfolding send_timed
  send_timed-Stuck c k e none n s h = h
  send_timed-Stuck c k e (some b) n s h = stopped_guard (some 0) _ s h

  send_async-Stuck :
      (e : Endpoint) (b : Option Bytes) (n : ℕ) (s : UdpServer Socket)
      → Stuck s
      → Stuck (state (send_async asio on e b n s))
  unfolding send_async
  send_async-Stuck e none n s h = h
  send_async-Stuck e (some b) n s h =
      state-if Stuck s.sending _ _ (λ _. h) (λ _. stopped_guard false _ s h)

  start_call-Stuck : (s : UdpServer Socket) → Stuck s → Stuck (state (start asio on s))
  unfolding start
  start_call-Stuck s h =
      state-if Stuck s.started _ _ (λ _. h)
        (λ _. record { stopped = h.stopped; open_socket = h.open_socket })

  start_at-Stuck :
      (e : Endpoint) (s : UdpServer Socket)
      → Stuck s
      → Stuck (state (start_multicast_at asio on e s))
  unfolding start_multicast_at
  start_at-Stuck e s h =
      start_call-Stuck (record s { multicast_endpoint = e })
        (record { stopped = h.stopped; open_socket = h.open_socket })

  start_multicast-Stuck :
      (a : Text) (p : ℕ) (s : UdpServer Socket)
      → Stuck s
      → Stuck (state (start_multicast asio on a p s))
  unfolding start_multicast
  start_multicast-Stuck a p s h = go (asio.make_address a) refl
    where
      go :
          (o : Option (InternetProtocol × Text))
          → asio.make_address a ≡ o
          → Stuck (state (start_multicast asio on a p s))
      go none e = rw (e, start_multicast) h
      go (some (protocol, host)) e = rw (e, start_multicast) (start_at-Stuck _ s h)

  -- No method, and no handler, leaves the state: the socket is closed by the stop of a started
  -- server only.
  perform-Stuck :
      (c : Call Socket) (s : UdpServer Socket) → Stuck s → Stuck (state (perform asio on c s))
  unfolding perform multicast multicast_timed multicast_async receive_async try_receive receive
      receive_timed stop
  perform-Stuck start_call s h = state-void Stuck (start asio on) s (start_call-Stuck s h)
  perform-Stuck stop_call s h = state-void Stuck (stop asio on) s (simp (h.stopped) h)
  perform-Stuck receive_async_call s h =
      state-if Stuck s.receiving _ _ (λ _. h) (λ _. stopped_guard tt _ s h)
  perform-Stuck (start_multicast_at_call e) s h =
      state-void Stuck (start_multicast_at asio on e) s (start_at-Stuck e s h)
  perform-Stuck (start_multicast_call a p) s h =
      state-void Stuck (start_multicast asio on a p) s (start_multicast-Stuck a p s h)
  perform-Stuck (send_call e b n) s h =
      state-void Stuck (send asio on e b n) s (send-Stuck e b n s h)
  perform-Stuck (send_timed_call c k e b n) s h =
      state-void Stuck (send_timed asio on c k e b n) s (send_timed-Stuck c k e b n s h)
  perform-Stuck (send_async_call e b n) s h =
      state-void Stuck (send_async asio on e b n) s (send_async-Stuck e b n s h)
  perform-Stuck (multicast_call b n) s h =
      state-void Stuck (multicast asio on b n) s (send-Stuck s.multicast_endpoint b n s h)
  perform-Stuck (multicast_timed_call c k b n) s h =
      state-void Stuck (multicast_timed asio on c k b n) s
        (send_timed-Stuck c k s.multicast_endpoint b n s h)
  perform-Stuck (multicast_async_call b n) s h =
      state-void Stuck (multicast_async asio on b n) s
        (send_async-Stuck s.multicast_endpoint b n s h)
  perform-Stuck (receive_call b n) s h =
      state-void Stuck (receive asio on b n) s (stopped_guard none _ s h)
  perform-Stuck (receive_timed_call c k e w b n) s h =
      state-void Stuck (receive_timed asio on c k e w b n) s (stopped_guard (some none) _ s h)
  perform-Stuck (setup_reuse_address b) s h = record {
    stopped = h.stopped;
    open_socket = h.open_socket;
  }
  perform-Stuck (setup_reuse_port b) s h = record {
    stopped = h.stopped;
    open_socket = h.open_socket;
  }
  perform-Stuck (setup_receive_buffer_limit n) s h = record {
    stopped = h.stopped;
    open_socket = h.open_socket;
  }
  perform-Stuck (setup_send_buffer_limit n) s h = record {
    stopped = h.stopped;
    open_socket = h.open_socket;
  }
  perform-Stuck (setup_receive_buffer_size n) s h =
      let o = receive_buffer_size (n % 2 ^ 32) in
      on_socket-Stuck (asio.set_option o) s (laws.option_keeps o) h
  perform-Stuck (setup_send_buffer_size n) s h =
      let o = send_buffer_size (n % 2 ^ 32) in
      on_socket-Stuck (asio.set_option o) s (laws.option_keeps o) h

  run_task-Stuck :
      (c : Completion) (t : Task) (s : UdpServer Socket)
      → Stuck s
      → Stuck (state (run_task asio on c t s))
  unfolding run_task run_stop run_send run_receive
  run_task-Stuck c start_handler s h = rw (start-Stuck s h) h
  run_task-Stuck c stop_handler s h = simp (h.stopped) h
  run_task-Stuck c (async_send_to b e) s h =
      stopped_guard tt _ (record s { sending = false })
        (record { stopped = h.stopped; open_socket = h.open_socket })
  run_task-Stuck c (async_receive_from n) s h =
      stopped_guard tt _
        (record s {
          receiving = false;
          receive_endpoint = c.endpoint;
          receive_buffer = c.bytes ++ drop (length c.bytes) s.receive_buffer;
        })
        (record { stopped = h.stopped; open_socket = h.open_socket })

  Step-Stuck : {s t : UdpServer Socket} → Step asio on s t → Stuck s → Stuck t
  Step-Stuck {s = s} (calls c) h = perform-Stuck c s h
  Step-Stuck {s = s} (runs before after x t c e) h =
      run_task-Stuck c t (record s { pending = before ++ after })
        (record { stopped = h.stopped; open_socket = h.open_socket })

  pub Reach-Stuck : {s t : UdpServer Socket} → Reach asio on s t → Stuck s → Stuck t
  Reach-Stuck here h = h
  Reach-Stuck (next r st) h = Step-Stuck st (Reach-Stuck r h)
