-- ===== src/Programs/Disconnected.antt =====
-- The loop of client.cpp and what follows it, while the client is not connected: a connect that is
-- posted is not run.
use mathlib.Core.Option
use kernel_udp_tcp.Prelude.{
  ◌≡◌, refl, arith, ap, ◌∙◌, Bool, true, false, not, List, [], ◌∷◌, Option, none, some, All, Text,
  if-true, if-false, Bool-cases, inl, inr,
}
use kernel_udp_tcp.Asio.{Asio, ErrorCode, SocketOption, reuse_address, reuse_port}
use kernel_udp_tcp.Asio.Action.{Outcome, ok, throw, ◌>>◌, state, when, state->>=}
use kernel_udp_tcp.UdpClient.{UdpClient, Overrides, connect_handler, submit, on_socket}
use kernel_udp_tcp.UdpClient.Connection.{
  open_and_bind, local_endpoint, connect_async, disconnect_async, await_disconnected,
}
use kernel_udp_tcp.Programs.MulticastServer.{is_mark}
use kernel_udp_tcp.Programs.MulticastClient.{multicast_client}
use kernel_udp_tcp.Programs.ClientLoop.{
  Round, reconnects, client_loop, client_loop-unmarked, disconnect_and_stop,
}
use kernel_udp_tcp.Programs.ClientMain.{listen}

-- A client that is not connected.
abbrev pub IsDown : {Socket : Type 0} → UdpClient Socket → Type 0
IsDown s = s.connected ≡ false

module _ {Socket : Type 0} (asio : Asio Socket) where
  on_socket-IsDown :
      (f : Socket → Socket × Option ErrorCode) (s : UdpClient Socket)
      → IsDown s
      → IsDown (state (on_socket f s))
  on_socket-IsDown f s off = go (f s.socket)
    where
      go :
          (r : Socket × Option ErrorCode)
          → IsDown (
              state {S = UdpClient Socket} {A = Unit {0}} (elim (r.1) [
                | none ↦ ok tt (record s { socket = r.0 })
                | some e ↦ throw e (record s { socket = r.0 })
              ]))
      go (k, none) = off
      go (k, some e) = off

  when-IsDown :
      (b : Bool) (o : SocketOption) (s : UdpClient Socket)
      → IsDown s
      → IsDown (state (when b (on_socket (asio.set_option o)) s))
  when-IsDown true o s off = on_socket-IsDown (asio.set_option o) s off
  when-IsDown false o s off = off

  -- The first part of a connect does not mark the client as connected.
  pub open_and_bind-IsDown :
      (on : Overrides Socket) (s : UdpClient Socket)
      → IsDown s
      → IsDown (state (open_and_bind asio on s))
  unfolding open_and_bind
  open_and_bind-IsDown on s off =
      let set_port = when s.option_reuse_port (on_socket (asio.set_option (reuse_port true))) in
      let bind_it = on_socket (asio.bind (local_endpoint asio on s)) in
      state->>= IsDown (on_socket (asio.open_socket s.endpoint.protocol)) _ s
        (on_socket-IsDown (asio.open_socket s.endpoint.protocol) s off)
        λ _ t ht.
          state->>= IsDown
            (when s.option_reuse_address (on_socket (asio.set_option (reuse_address true))))
            (λ _. set_port >> bind_it) t
            (when-IsDown s.option_reuse_address (reuse_address true) t ht)
            λ _ u hu.
              state->>= IsDown set_port (λ _. bind_it) u
                (when-IsDown s.option_reuse_port (reuse_port true) u hu)
                λ _ v hv. on_socket-IsDown (asio.bind (local_endpoint asio on s)) v hv

  module _ (multicast : Text) where
    -- A line before which no other thread does anything, nor while a reconnect waits.
    abbrev pub Line : Type 0
    Line = Text × Round asio multicast × List (Round asio multicast)

    abbrev pub Quiet : Line → Type 0
    Quiet l = (s : UdpClient Socket) → l.1 s ≡ s

    -- A `!` posts a connect, which nothing runs.
    reconnects_down :
        (rounds : List (Round asio multicast)) (s : UdpClient Socket)
        → IsDown s
        → reconnects asio multicast rounds s ≡ some (ok true (submit connect_handler s))
    unfolding reconnects connect_async
    reconnects_down rounds s off = if-false _ _ off ∙ ap some (if-false _ _ off)

    -- What becomes of a reconnect, and of one line, with the rest of the loop.
    abbrev after :
        (UdpClient Socket → Option (Outcome (UdpClient Socket) (Unit {0})))
        → Option (Outcome (UdpClient Socket) Bool)
        → Option (Outcome (UdpClient Socket) (Unit {0}))
    after go_on o = elim o [
      | none ↦ none
      | some (ok done t) ↦ go_on t
      | some (throw e t) ↦ some (throw e t)
    ]

    abbrev line_done :
        Bool
        → List (Round asio multicast)
        → (UdpClient Socket → Option (Outcome (UdpClient Socket) (Unit {0})))
        → UdpClient Socket
        → Option (Outcome (UdpClient Socket) (Unit {0}))
    line_done mark rounds go_on s = elim mark [
      | false ↦ go_on s
      | true ↦ after go_on (reconnects asio multicast rounds s)
    ]

    -- A client that is not connected stays so, whatever lines are typed: a `!` posts a connect, which
    -- nothing runs.
    loop-IsDown :
        (lines : List Line) (s : UdpClient Socket)
        → IsDown s
        → All Quiet lines
        → (t : UdpClient Socket) × (client_loop asio multicast lines s ≡ some (ok tt t)) × IsDown t
    unfolding client_loop
    loop-IsDown [] s off h = (s, refl, off)
    loop-IsDown (([], meanwhile, rounds) ∷ rest) s off h =
        (s, ap (λ t. some (ok tt t)) (h.0 s), off)
    loop-IsDown ((c ∷ cs, meanwhile, rounds) ∷ rest) s off h =
        let go_on = client_loop asio multicast rest in
        elim (Bool-cases (is_mark (c ∷ cs))) [
          | inl mark ↦
              let (t, run, still) = loop-IsDown rest (submit connect_handler s) off h.1 in
              (
                t,
                ap (line_done (is_mark (c ∷ cs)) rounds go_on) (h.0 s)
                    ∙ ap (λ b. line_done b rounds go_on s) mark
                    ∙ ap (after go_on) (reconnects_down rounds s off)
                    ∙ run,
                still,
              )
          | inr other ↦
              let (t, run, still) = loop-IsDown rest s off h.1 in
              (
                t,
                client_loop-unmarked asio multicast (c ∷ cs) meanwhile rounds rest s (omega arith)
                      other
                    ∙ ap go_on (h.0 s)
                    ∙ run,
                still,
              )
        ]

    stop_down :
        (rounds : List (Round asio multicast)) (s : UdpClient Socket)
        → IsDown s
        → disconnect_and_stop asio multicast rounds s ≡ some (ok tt s)
    unfolding disconnect_and_stop disconnect_async await_disconnected
    stop_down rounds s off =
        ap leave (if-true _ _ (ap not off)) ∙ ap (Option.map (ok tt)) (waited rounds)
      where
        leave : Outcome (UdpClient Socket) Bool → Option (Outcome (UdpClient Socket) (Unit {0}))
        leave (ok done t) =
            Option.map (ok tt)
              (await_disconnected asio (multicast_client asio true multicast) rounds t)
        leave (throw e t) = some (throw e t)

        waited :
            (rounds : List (Round asio multicast))
            → await_disconnected asio (multicast_client asio true multicast) rounds s ≡ some s
        waited [] = if-false _ _ off
        waited (round ∷ rest) = if-false _ _ off

    -- What main has done before service->Stop(), on a client that is not connected.
    pub listen-IsDown :
        (lines : List Line) (rounds : List (Round asio multicast)) (s : UdpClient Socket)
        → IsDown s
        → All Quiet lines
        → (t : UdpClient Socket) × (listen asio multicast lines rounds s ≡ some (ok tt t))
          × IsDown t
    unfolding listen
    listen-IsDown lines rounds s off h =
        let (t, run, still) = loop-IsDown lines s off h in
        (t, ap stopped run ∙ stop_down rounds t still, still)
      where
        stopped :
            Option (Outcome (UdpClient Socket) (Unit {0}))
            → Option (Outcome (UdpClient Socket) (Unit {0}))
        stopped none = none
        stopped (some (ok done t)) = disconnect_and_stop asio multicast rounds t
        stopped (some (throw e t)) = some (throw e t)
