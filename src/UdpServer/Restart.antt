-- ===== src/UdpServer/Restart.antt =====
-- Restart of UDPServer when the calls of asio succeed.
use mathlib.Core.Option
use kernel_udp_tcp.Prelude.{
  ℕ, ◌≡◌, refl, ap, ◌∙◌, Bool, true, false, List, [], ◌∷◌, ◌++◌, Option, none, some, length,
  if-true, if-false,
}
use kernel_udp_tcp.Asio.{Asio, ErrorCode, executor}
use kernel_udp_tcp.Asio.Action.{Outcome, ok, throw, state, ok->>=}
use kernel_udp_tcp.Asio.Buffers.{length-resize}
use kernel_udp_tcp.Asio.Success.{Succeeds}
use kernel_udp_tcp.UdpServer.{
  UdpServer, no_overrides, on_started, on_stopped, on_socket, start_handler, submit,
}
use kernel_udp_tcp.UdpServer.Lifecycle.{
  run_start, run_stop, start, stop, stopped, await_stopped, restart,
}
use kernel_udp_tcp.UdpServer.Success.{up, run_start_succeeds}

module _ {Socket : Type 0} (asio : Asio Socket) where
  -- A round in which the service's thread runs the stop handler, the newest that asio holds for a
  -- server.
  abbrev pub stop_runs : UdpServer Socket → UdpServer Socket → UdpServer Socket
  stop_runs s t = state (run_stop asio no_overrides (record t { pending = s.pending }))

  -- The server once it is stopped.
  abbrev pub down : UdpServer Socket → UdpServer Socket
  down s = record (stopped asio no_overrides (record s { socket = (asio.close s.socket).0 })) {
    calls = on_stopped ∷ s.calls;
  }

  await-down :
      (rest : List (UdpServer Socket → UdpServer Socket)) (t : UdpServer Socket)
      → t.started ≡ false
      → await_stopped asio no_overrides rest t ≡ some t
  unfolding await_stopped
  await-down [] t off = if-false _ _ off
  await-down (round ∷ rest) t off = if-false _ _ off

  module _ (s : UdpServer Socket) (on : s.started ≡ true)
      (closes : (asio.close s.socket).1 ≡ none) where
    pub run_stop-down : run_stop asio no_overrides s ≡ ok tt (down s)
    unfolding run_stop
    run_stop-down = if-true _ _ on ∙ ok->>= (on_socket asio.close) _ s closed
      where
        closed : on_socket asio.close s ≡ ok tt (record s { socket = (asio.close s.socket).0 })
        closed =
            ap
              (λ (o : Option ErrorCode). elim o as (λ _. Outcome (UdpServer Socket) (Unit {0})) [
                | none ↦ ok tt (record s { socket = (asio.close s.socket).0 })
                | some x ↦ throw x (record s { socket = (asio.close s.socket).0 })
              ])
              closes

    restart_stops :
        (rest : List (UdpServer Socket → UdpServer Socket))
        → restart asio no_overrides (stop_runs s ∷ rest) s
          ≡ some (ok true (submit start_handler (down s)))
    unfolding restart stop start await_stopped
    restart_stops rest =
        ap leave (if-true _ _ on)
        ∙ ap (λ v. some_of v)
            (if-true _ _ on
              ∙ ap (await_stopped asio no_overrides rest) (ap (λ o. state o) run_stop-down)
              ∙ await-down rest (down s) refl)
      where
        some_of : Option (UdpServer Socket) → Option (Outcome (UdpServer Socket) Bool)
        some_of v = Option.map (start asio no_overrides) v

        leave : Outcome (UdpServer Socket) Bool → Option (Outcome (UdpServer Socket) Bool)
        leave (ok true t) = some_of (await_stopped asio no_overrides (stop_runs s ∷ rest) t)
        leave (ok false t) = some (ok false t)
        leave (throw e t) = some (throw e t)

  -- Restart of a started server returns true as soon as the stop handler has run, with the start
  -- handler posted; when that has run too, the server is started again, its counters are at zero,
  -- the buffer has the size that the system gives, and the group is the one that it had. The calls
  -- of asio on the socket succeed.
  pub restart_comes_back :
      (IsClosed IsOpen : Socket → Type 0) (room : ℕ) (s : UdpServer Socket)
      (rest : List (UdpServer Socket → UdpServer Socket))
      → Succeeds asio IsClosed IsOpen room
      → s.started ≡ true
      → IsOpen s.socket
      → (t : UdpServer Socket) × (restart asio no_overrides (stop_runs s ∷ rest) s
          ≡ some (ok true t))
        × (t.pending ≡ s.pending ++ (executor s.strand_required, start_handler) ∷ [])
        × (u : UdpServer Socket) × (run_start asio no_overrides (record t { pending = s.pending })
            ≡ ok tt u)
        × (u.started ≡ true)
        × (u.calls ≡ on_started ∷ on_stopped ∷ s.calls)
        × (u.bytes_sent ≡ 0)
        × (u.bytes_received ≡ 0)
        × (u.datagrams_sent ≡ 0)
        × (u.datagrams_received ≡ 0)
        × (length u.receive_buffer ≡ room)
        × (u.multicast_endpoint ≡ s.multicast_endpoint)
  restart_comes_back IsClosed IsOpen room s rest works on open_socket =
      let (closes, closed) = works.closes s.socket open_socket in
      let (k, open_k, started) =
        run_start_succeeds asio IsClosed IsOpen room works no_overrides (down s) refl closed in
      let v = up asio IsClosed IsOpen room works no_overrides k (down s) in
      (
        submit start_handler (down s),
        restart_stops s on closes rest,
        refl,
        record v { calls = on_started ∷ v.calls },
        started,
        refl,
        refl,
        refl,
        refl,
        refl,
        refl,
        length-resize room s.receive_buffer,
        refl,
      )
