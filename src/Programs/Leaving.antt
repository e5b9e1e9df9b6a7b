-- ===== src/Programs/Leaving.antt =====
-- client.cpp when the calls of asio succeed: the datagrams that come between the lines, and
-- DisconnectAndStop, whose wait ends with the handler of the receive that it has cancelled.
use kernel_udp_tcp.Prelude.{
  ℕ, ◌+◌, ◌%◌, ◌^◌, ◌<◌, ◌≡◌, refl, sym, ap, ◌∙◌, true, false, List, [], ◌∷◌, ◌++◌, Option, none,
  some, length, length-append, All, Text, arith, if-not,
}
use kernel_udp_tcp.Asio.{Asio, Endpoint, ErrorCode, Bytes, Executor, executor, operation_aborted}
use kernel_udp_tcp.Asio.Action.{Outcome, ok, throw, state, skip, ok->>=}
use kernel_udp_tcp.UdpClient.{
  UdpClient, Task, Callback, disconnect_handler, submit, on_disconnected,
}
use kernel_udp_tcp.UdpClient.Connection.{disconnect, run_disconnect, disconnect_dispatched}
use kernel_udp_tcp.UdpClient.Receive.{finish_receive, run_receive, delivered}
use kernel_udp_tcp.UdpClient.Step.{Completion, run_task}
use kernel_udp_tcp.Programs.MulticastServer.{is_mark}
use kernel_udp_tcp.Programs.MulticastClient.{multicast_client}
use kernel_udp_tcp.Programs.Listening.{Datagram, Listening, arrive_all, heard, arrive_all-heard}
use kernel_udp_tcp.Programs.ClientLoop.{
  Round, client_loop, client_loop-unmarked, disconnect_and_stop, disconnect_and_stop-round,
  disconnect-stopped, found, gone,
}
use kernel_udp_tcp.Programs.ClientMain.{listen}
use kernel_udp_tcp.Programs.Disconnected.{Line}

-- A line that is neither empty nor a `!`, with the datagrams that came before it, each shorter than
-- a buffer.
abbrev pub Typed : ℕ → Text × List Datagram → Type 0
Typed room (l, ds) = (0 < length l) × (is_mark l ≡ false) × All (λ d. length d.1 < room) ds

-- All datagrams that came.
abbrev pub came : List (Text × List Datagram) → List Datagram
came [] = []
came ((l, ds) ∷ rest) = ds ++ came rest

heard-append :
    (ds es : List Datagram) (calls : List Callback)
    → heard (ds ++ es) calls ≡ heard es (heard ds calls)
heard-append [] es calls = refl
heard-append ((e, b) ∷ ds) es calls = heard-append ds es _

module _ {Socket : Type 0} (asio : Asio Socket) (multicast : Text) where
  -- The lines, before each of which its datagrams arrive.
  abbrev pub between : List (Text × List Datagram) → List (Line asio multicast)
  between [] = []
  between ((l, ds) ∷ rest) =
      (l, (λ s. state (arrive_all asio (multicast_client asio false multicast) ds s)), [])
      ∷ between rest

  client_loop-heard :
      (room : ℕ) (lines : List (Text × List Datagram)) (s : UdpClient Socket)
      → Listening room s
      → s.datagrams_received < 2 ^ 64
      → All (Typed room) lines
      → (t : UdpClient Socket) × (client_loop asio multicast (between lines) s ≡ some (ok tt t))
        × Listening room t
        × (t.calls ≡ heard (came lines) s.calls)
        × (t.datagrams_received ≡ (s.datagrams_received + length (came lines)) % 2 ^ 64)
        × (t.socket ≡ s.socket)
  unfolding client_loop
  client_loop-heard room [] s l fits h = (s, refl, l, refl, omega (arith, fits), refl)
  client_loop-heard room ((line, ds) ∷ rest) s l fits h =
      let go_on = client_loop asio multicast (between rest) in
      let (t, run, again, calls, counted, kept) =
        arrive_all-heard asio false multicast room ds s l fits h.0.2 in
      let (u, looped, still, all, total, same) =
        client_loop-heard room rest t again (omega (arith, counted)) h.1 in
      (
        u,
        client_loop-unmarked asio multicast line _ [] (between rest) s h.0.0 h.0.1
            ∙ ap (λ o. go_on (state o)) run
            ∙ looped,
        still,
        all ∙ ap (heard (came rest)) calls ∙ sym (heard-append ds (came rest) s.calls),
        omega (arith, total, counted, length-append ds (came rest)),
        same ∙ kept,
      )

  -- The oldest handler is run, with what asio tells it, while _stop is set.
  abbrev pub takes : Completion → Round asio multicast
  takes c s = elim (s.pending) [
    | [] ↦ s
    | (x, t) ∷ rest ↦
        state
          (run_task asio (multicast_client asio true multicast) c t (record s { pending = rest }))
  ]

  -- The client when its cancelled receive is over, and what its handler then leaves.
  abbrev released : Endpoint → Bytes → UdpClient Socket → UdpClient Socket
  released e b s = record (delivered asio (multicast_client asio true multicast) e b s) {
    receiving = false;
  }

  abbrev left_by : Endpoint → Bytes → UdpClient Socket → UdpClient Socket
  left_by e b s = gone asio multicast (found asio multicast (released e b s))

  run_receive-cancelled :
      (e : Endpoint) (b : Bytes) (s : UdpClient Socket)
      → s.connected ≡ true
      → (asio.close (asio.cancel s.socket).0).1 ≡ none
      → run_receive asio (multicast_client asio true multicast) (some operation_aborted) e b s
        ≡ ok tt (left_by e b s)
  unfolding run_receive finish_receive disconnect_dispatched run_disconnect
  run_receive-cancelled e b s on closes =
      if-not _ _ on
      ∙ (if-not _ _ on
          ∙ ok->>= (disconnect asio (multicast_client asio true multicast)) (λ _. skip)
              (found asio multicast (released e b s))
              (disconnect-stopped asio multicast (found asio multicast (released e b s)) on closes))

  -- The client that DisconnectAndStop has cancelled, without its receive.
  abbrev emptied : UdpClient Socket → UdpClient Socket
  emptied s = record (found asio multicast s) {
    pending = (executor s.strand_required, disconnect_handler) ∷ [];
  }

  takes-Listening :
      (room : ℕ) (c : Completion) (s : UdpClient Socket)
      → Listening room s
      → c.error ≡ some operation_aborted
      → (asio.close (asio.cancel (asio.cancel s.socket).0).0).1 ≡ none
      → takes c (submit disconnect_handler (found asio multicast s))
        ≡ left_by c.endpoint c.bytes (emptied s)
  unfolding run_task
  takes-Listening room c s l cut closes =
      ap
        (λ (p : List (Executor × Task)). takes c (record (found asio multicast s) {
          pending = p ++ (executor s.strand_required, disconnect_handler) ∷ [];
        }))
        l.under_way
      ∙ ap
          (λ (o : Option ErrorCode). state (
            run_receive asio (multicast_client asio true multicast) o c.endpoint c.bytes
              (emptied s)))
          cut
      ∙ ap (λ (o : Outcome (UdpClient Socket) (Unit {0})). state o)
          (run_receive-cancelled c.endpoint c.bytes (emptied s) l.connected closes)

  -- DisconnectAndStop of a client that listens.
  pub disconnect_and_stop-Listening :
      (room : ℕ) (c : Completion) (rest : List (Round asio multicast)) (s : UdpClient Socket)
      → Listening room s
      → c.error ≡ some operation_aborted
      → (asio.close (asio.cancel (asio.cancel s.socket).0).0).1 ≡ none
      → (t : UdpClient Socket) × (disconnect_and_stop asio multicast (takes c ∷ rest) s
          ≡ some (ok tt t))
        × (t.connected ≡ false)
        × (t.calls ≡ on_disconnected ∷ s.calls)
        × (t.datagrams_received ≡ s.datagrams_received)
        × (t.socket ≡ (asio.close (asio.cancel (asio.cancel s.socket).0).0).0)
        × (x : Executor) × (t.pending ≡ (x, disconnect_handler) ∷ [])
  disconnect_and_stop-Listening room c rest s l cut closes = (
    left_by c.endpoint c.bytes (emptied s),
    disconnect_and_stop-round asio multicast (takes c) rest s _ l.connected
        (takes-Listening room c s l cut closes) refl,
    refl,
    refl,
    refl,
    refl,
    executor s.strand_required,
    refl,
  )

  -- The loop over the lines, and DisconnectAndStop.
  pub listen-heard :
      (room : ℕ) (lines : List (Text × List Datagram)) (c : Completion)
      (rest : List (Round asio multicast)) (s : UdpClient Socket)
      → Listening room s
      → s.datagrams_received < 2 ^ 64
      → All (Typed room) lines
      → c.error ≡ some operation_aborted
      → (asio.close (asio.cancel (asio.cancel s.socket).0).0).1 ≡ none
      → (t : UdpClient Socket) × (listen asio multicast (between lines) (takes c ∷ rest) s
          ≡ some (ok tt t))
        × (t.connected ≡ false)
        × (t.calls ≡ on_disconnected ∷ heard (came lines) s.calls)
        × (t.datagrams_received ≡ (s.datagrams_received + length (came lines)) % 2 ^ 64)
        × (t.socket ≡ (asio.close (asio.cancel (asio.cancel s.socket).0).0).0)
        × (x : Executor) × (t.pending ≡ (x, disconnect_handler) ∷ [])
  unfolding listen
  listen-heard room lines c rest s l fits typed cut closes =
      let (t, looped, still, all, total, same) = client_loop-heard room lines s l fits typed in
      let (u, stopped, off, calls, counted, closed, x, left) =
        disconnect_and_stop-Listening room c rest t still cut
          (ap (λ k. (asio.close (asio.cancel (asio.cancel k).0).0).1) same ∙ closes) in
      (
        u,
        ap go_on looped ∙ stopped,
        off,
        calls ∙ ap (◌∷◌ on_disconnected) all,
        counted ∙ total,
        closed ∙ ap (λ k. (asio.close (asio.cancel (asio.cancel k).0).0).0) same,
        x,
        left,
      )
    where
      go_on :
          Option (Outcome (UdpClient Socket) (Unit {0}))
          → Option (Outcome (UdpClient Socket) (Unit {0}))
      go_on none = none
      go_on (some (ok done t)) = disconnect_and_stop asio multicast (takes c ∷ rest) t
      go_on (some (throw e t)) = some (throw e t)
