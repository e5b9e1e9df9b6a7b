-- ===== src/Programs/Broadcast.antt =====
-- What becomes of the lines that are typed into server.cpp.
use mathlib.Core.Option
use kernel_udp_tcp.Prelude.{
  ℕ, ◌+◌, ◌%◌, ◌^◌, ◌<◌, ◌≡◌, refl, ap, sym, ◌∙◌, Bool, true, false, List, [], ◌∷◌, Option, none,
  some, length, take, take_all, All, arith, Text, if-true, if-false, if-not, Bool-cases, inl, inr,
  ◌==◌,
}
use kernel_udp_tcp.Asio.{Asio, Bytes, Endpoint, add64}
use kernel_udp_tcp.Asio.Action.{Outcome, ok, throw, state}
use kernel_udp_tcp.UdpServer.{UdpServer, no_overrides, on_sent}
use kernel_udp_tcp.UdpServer.Lifecycle.{restart, stop, start, await_stopped}
use kernel_udp_tcp.UdpServer.Send.{multicast, send, send_bytes, count_sent}
use kernel_udp_tcp.Programs.MulticastServer.{
  broadcasts, is_mark, message, command, Input, broadcast_loop,
}

-- A line that is a message, typed while no other thread does anything.
abbrev pub typed : {Socket : Type 0} → Text → Input Socket
typed l = record { line = l; meanwhile = λ s. s; rounds = [] }

abbrev pub all_typed : {Socket : Type 0} → List Text → List (Input Socket)
all_typed [] = []
all_typed (l ∷ ls) = typed l ∷ all_typed ls

abbrev pub IsMessage : Text → Type 0
IsMessage l = (0 < length l) × (is_mark l ≡ false)

command-IsMessage : (l : Text) → IsMessage l → command l ≡ broadcasts (message l)
unfolding command
command-IsMessage [] h = absurd (omega (arith, h.0))
command-IsMessage (c ∷ rest) h = if-false _ _ h.1

module _ {Socket : Type 0} (asio : Asio Socket) where
  pub multicast_idle :
      (b : Bytes) (s : UdpServer Socket)
      → s.started ≡ false
      → multicast asio no_overrides (some b) (length b) s ≡ ok 0 s
  unfolding multicast send
  multicast_idle b s off = ground arith

  broadcast_loop-message :
      (l : Text) (rest : List (Input Socket)) (s u : UdpServer Socket) (n : ℕ)
      → IsMessage l
      → multicast asio no_overrides (some (message l)) (length (message l)) s ≡ ok n u
      → broadcast_loop asio (typed l ∷ rest) s ≡ broadcast_loop asio rest u
  unfolding broadcast_loop
  broadcast_loop-message l rest s u n h e = simp (command-IsMessage l h, e) refl

  loop_idle :
      (ls : List Text) (s : UdpServer Socket)
      → s.started ≡ false
      → All IsMessage ls
      → broadcast_loop asio (all_typed ls) s ≡ some (ok tt s)
  unfolding broadcast_loop
  loop_idle [] s off h = refl
  loop_idle (l ∷ ls) s off h =
      broadcast_loop-message l (all_typed ls) s s 0 h.0 (multicast_idle (message l) s off)
      ∙ loop_idle ls s off h.1

  -- A start only posts its handler.
  start-off : (v t : UdpServer Socket) → start asio no_overrides v ≡ ok true t → t.started ≡ false
  unfolding start
  start-off v t e = elim (Bool-cases v.started) [
    | inl up ↦ absurd (cc (sym (if-true _ _ up) ∙ e))
    | inr off ↦
        sym (
          ap (λ (o : Outcome (UdpServer Socket) Bool). (state o).started)
            (sym (if-false _ _ off) ∙ e))
        ∙ off
  ]

  restart-off :
      (rounds : List (UdpServer Socket → UdpServer Socket)) (s t : UdpServer Socket)
      → restart asio no_overrides rounds s ≡ some (ok true t)
      → t.started ≡ false
  unfolding restart
  restart-off rounds s t = go (stop asio no_overrides s)
    where
      after :
          (v : Option (UdpServer Socket))
          → Option.map (start asio no_overrides) v ≡ some (ok true t)
          → t.started ≡ false
      after none e = absurd (cc e)
      after (some v) e =
          start-off v t (ap (λ o. elim o [ none ↦ start asio no_overrides v | some x ↦ x ]) e)

      go :
          (o : Outcome (UdpServer Socket) Bool)
          → elim o [
            | ok true u ↦
                Option.map (start asio no_overrides) (await_stopped asio no_overrides rounds u)
            | ok false u ↦ some (ok false u)
            | throw e u ↦ some (throw e u)
          ]
            ≡ some (ok true t)
          → t.started ≡ false
      go (ok true u) e = after (await_stopped asio no_overrides rounds u) e
      go (ok false u) e = absurd (cc e)
      go (throw x u) e = absurd (cc e)

  -- Lines that are typed right after a `!`, before the start handler of the restart has run, are
  -- lost: the restart returns true, and the messages change nothing.
  pub lost_after_restart :
      (rounds : List (UdpServer Socket → UdpServer Socket)) (ls : List Text)
      (s t : UdpServer Socket)
      → restart asio no_overrides rounds s ≡ some (ok true t)
      → All IsMessage ls
      → broadcast_loop asio
          (record { line = 33 ∷ []; meanwhile = λ u. u; rounds = rounds } ∷ all_typed ls)
          s
        ≡ some (ok tt t)
  unfolding broadcast_loop command
  lost_after_restart rounds ls s t e h = ap go_on e ∙ loop_idle ls t (restart-off rounds s t e) h
    where
      go_on :
          Option (Outcome (UdpServer Socket) Bool) → Option (Outcome (UdpServer Socket) (Unit {0}))
      go_on none = none
      go_on (some (ok done u)) = broadcast_loop asio (all_typed ls) u
      go_on (some (throw x u)) = some (throw x u)

  -- The socket after messages to an endpoint went out, one datagram each.
  abbrev pub logged : (Bytes → Endpoint → Socket → Socket) → Endpoint → List Text → Socket → Socket
  logged log e [] k = k
  logged log e (l ∷ ls) k = logged log e ls (log (message l) e k)

  -- One message on a started server, whose socket sends it.
  multicast_message :
      (log : Bytes → Endpoint → Socket → Socket) (b : Bytes) (s : UdpServer Socket)
      → ((b : Bytes) (e : Endpoint) (k : Socket) → asio.send_to b e k ≡ (log b e k, length b, none))
      → s.started ≡ true
      → 0 < length b
      → (u : UdpServer Socket) × (multicast asio no_overrides (some b) (length b) s
          ≡ ok (length b) u)
        × (u.socket ≡ log b s.multicast_endpoint s.socket)
        × (u.multicast_endpoint ≡ s.multicast_endpoint)
        × (u.datagrams_sent ≡ add64 s.datagrams_sent 1)
        × (u.started ≡ true)
        × (u.pending ≡ s.pending)
  unfolding multicast send send_bytes count_sent
  multicast_message log b s sends on some_bytes = (
    record s {
      socket = log b s.multicast_endpoint s.socket;
      datagrams_sent = add64 s.datagrams_sent 1;
      bytes_sent = add64 s.bytes_sent (length b);
      calls = on_sent s.multicast_endpoint (length b) ∷ s.calls;
    },
    if-not _ _ on ∙ if-false {b = length b == 0} _ _ (ground arith) ∙ out,
    refl,
    refl,
    refl,
    on,
    refl,
  )
    where
      out :
          send_bytes asio no_overrides s.multicast_endpoint (take (length b) b) s
          ≡ ok (length b) (record s {
            socket = log b s.multicast_endpoint s.socket;
            datagrams_sent = add64 s.datagrams_sent 1;
            bytes_sent = add64 s.bytes_sent (length b);
            calls = on_sent s.multicast_endpoint (length b) ∷ s.calls;
          })
      out =
          ground (arith, take_all (length b) b (omega arith), sends b s.multicast_endpoint s.socket)

  -- Each line that is typed, if it is neither empty nor `!`, goes to the group as one datagram,
  -- behind the mark of the program, in the order of typing; each is counted, and the server stays
  -- started. The server is started, every send succeeds, and no other thread does anything.
  pub loop_broadcasts :
      (log : Bytes → Endpoint → Socket → Socket) (ls : List Text) (s : UdpServer Socket)
      → ((b : Bytes) (e : Endpoint) (k : Socket) → asio.send_to b e k ≡ (log b e k, length b, none))
      → s.started ≡ true
      → s.datagrams_sent < 2 ^ 64
      → All IsMessage ls
      → (u : UdpServer Socket) × (broadcast_loop asio (all_typed ls) s ≡ some (ok tt u))
        × (u.socket ≡ logged log s.multicast_endpoint ls s.socket)
        × (u.datagrams_sent ≡ (s.datagrams_sent + length ls) % 2 ^ 64)
        × (u.started ≡ true)
        × (u.pending ≡ s.pending)
  unfolding broadcast_loop
  loop_broadcasts log [] s sends on fits h = (s, refl, refl, omega (arith, fits), on, refl)
  loop_broadcasts log (l ∷ ls) s sends on fits h =
      let (u, run, socket, group, counted, up, kept) =
        multicast_message log (message l) s sends on (omega arith) in
      let (v, later, sent, total, still, held) =
        loop_broadcasts log ls u sends up (omega (arith, counted)) h.1 in
      (
        v,
        broadcast_loop-message l (all_typed ls) s u _ h.0 run ∙ later,
        sent
            ∙ ap (λ e. logged log e ls u.socket) group
            ∙ ap (logged log s.multicast_endpoint ls) socket,
        omega (arith, total, counted),
        still,
        held ∙ kept,
      )
