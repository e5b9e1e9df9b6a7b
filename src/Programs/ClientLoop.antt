-- ===== src/Programs/ClientLoop.antt =====
-- The program of client.cpp: the loop of main over the lines that are typed, and DisconnectAndStop.
use mathlib.Core.Option
use kernel_udp_tcp.Prelude.{
  Bool, true, false, List, [], ◌∷◌, ◌++◌, ◌≡◌, refl, ap, ◌∙◌, Option, none, some, Text,
  if◌then◌else◌, ◌<◌, length, if-true, if-false, if-not, arith,
}
use kernel_udp_tcp.Asio.{Asio, executor}
use kernel_udp_tcp.Asio.Action.{Outcome, ok, throw, state, ok->>=}
use kernel_udp_tcp.UdpClient.{
  UdpClient, disconnect_handler, connect_handler, submit, on_disconnected,
}
use kernel_udp_tcp.UdpClient.Connection.{
  connect_async, disconnect_async, await_disconnected, reconnect_async, cancelled, closed,
  run_disconnect, disconnect,
}
use kernel_udp_tcp.Programs.MulticastClient.{multicast_client}
use kernel_udp_tcp.Programs.MulticastServer.{is_mark}

module _ {Socket : Type 0} (asio : Asio Socket) (multicast : Text) where
  -- What the other threads do to the client in one of the rounds of a wait.
  abbrev pub Round : Type 0
  Round = UdpClient Socket → UdpClient Socket

  -- What a `!` asks for.
  unfoldable pub reconnects :
      List Round → UdpClient Socket → Option (Outcome (UdpClient Socket) Bool)
  unfolding reconnect_async connect_async
  reconnects rounds s =
      if s.connected
      then reconnect_async asio (multicast_client asio false multicast) rounds s
      else some (connect_async asio (multicast_client asio false multicast) s)

  -- The loop, up to an empty line or the end of the input. With each line comes what other threads do
  -- before it is read, and in the rounds of a reconnect; `none` means that it still waits.
  unfoldable pub client_loop :
      List (Text × Round × List Round)
      → UdpClient Socket
      → Option (Outcome (UdpClient Socket) (Unit {0}))
  unfolding reconnects
  client_loop [] s = some (ok tt s)
  client_loop (([], meanwhile, rounds) ∷ rest) s = some (ok tt (meanwhile s))
  client_loop ((c ∷ cs, meanwhile, rounds) ∷ rest) s = elim (is_mark (c ∷ cs)) [
    | false ↦ client_loop rest (meanwhile s)
    | true ↦ elim (reconnects rounds (meanwhile s)) [
      | none ↦ none
      | some (ok done t) ↦ client_loop rest t
      | some (throw e t) ↦ some (throw e t)
    ]
  ]

  -- A line that is neither empty nor a `!` asks for nothing.
  pub client_loop-unmarked :
      (l : Text) (meanwhile : Round) (rounds : List Round) (rest : List (Text × Round × List Round))
      (s : UdpClient Socket)
      → 0 < length l
      → is_mark l ≡ false
      → client_loop ((l, meanwhile, rounds) ∷ rest) s ≡ client_loop rest (meanwhile s)
  unfolding client_loop
  client_loop-unmarked [] meanwhile rounds rest s typed other = absurd (omega (arith, typed))
  client_loop-unmarked (c ∷ cs) meanwhile rounds rest s typed other =
      ap
        (λ (b : Bool). elim b as (λ _. Option (Outcome (UdpClient Socket) (Unit {0}))) [
          | false ↦ client_loop rest (meanwhile s)
          | true ↦ elim (reconnects rounds (meanwhile s)) [
            | none ↦ none
            | some (ok done t) ↦ client_loop rest t
            | some (throw e t) ↦ some (throw e t)
          ]
        ])
        other

  -- DisconnectAndStop: _stop is set first, then the client is disconnected and waited for.
  unfoldable pub disconnect_and_stop :
      List Round → UdpClient Socket → Option (Outcome (UdpClient Socket) (Unit {0}))
  unfolding disconnect_async await_disconnected
  disconnect_and_stop rounds s =
      elim (disconnect_async asio (multicast_client asio true multicast) s) [
        | ok done t ↦
            Option.map (ok tt)
              (await_disconnected asio (multicast_client asio true multicast) rounds t)
        | throw e t ↦ some (throw e t)
      ]

  -- The handler of DisconnectAsync is run by a thread of the service, with _stop as it is.
  abbrev pub handled : Bool → UdpClient Socket → Round
  handled stop s t = state (
      run_disconnect asio (multicast_client asio stop multicast) (record t { pending = s.pending }))

  -- The client after its socket was closed, before onDisconnected does more.
  abbrev pub gone : UdpClient Socket → UdpClient Socket
  gone s =
      record (closed asio (multicast_client asio true multicast)
        (record s { socket = (asio.close s.socket).0 })) { calls = on_disconnected ∷ s.calls }

  pub disconnect-stopped :
      (s : UdpClient Socket)
      → s.connected ≡ true
      → (asio.close s.socket).1 ≡ none
      → disconnect asio (multicast_client asio true multicast) s ≡ ok true (gone s)
  unfolding disconnect multicast_client
  disconnect-stopped s on closes = ground arith

  disconnect-again :
      (s : UdpClient Socket)
      → s.connected ≡ true
      → (asio.close s.socket).1 ≡ none
      → disconnect asio (multicast_client asio false multicast) s
        ≡ ok true (submit connect_handler (gone s))
  unfolding disconnect multicast_client connect_async
  disconnect-again s on closes = ground arith

  -- The client that the handler of DisconnectAsync finds.
  abbrev pub found : UdpClient Socket → UdpClient Socket
  found s = cancelled asio (multicast_client asio true multicast) s

  await-disconnected :
      (rest : List Round) (u : UdpClient Socket)
      → u.connected ≡ false
      → await_disconnected asio (multicast_client asio true multicast) rest u ≡ some u
  unfolding await_disconnected
  await-disconnected [] u off = if-false _ _ off
  await-disconnected (round ∷ rest) u off = if-false _ _ off

  -- DisconnectAndStop of a connected client comes back with what the first round of its wait has
  -- left, if that is disconnected.
  pub disconnect_and_stop-round :
      (round : Round) (rest : List Round) (s u : UdpClient Socket)
      → s.connected ≡ true
      → round (submit disconnect_handler (found s)) ≡ u
      → u.connected ≡ false
      → disconnect_and_stop (round ∷ rest) s ≡ some (ok tt u)
  unfolding disconnect_and_stop disconnect_async await_disconnected
  disconnect_and_stop-round round rest s u on ended off =
      ap leave (if-not _ _ on)
      ∙ ap (Option.map (ok tt)) (
          if-true _ _ on
          ∙ ap (await_disconnected asio (multicast_client asio true multicast) rest) ended
          ∙ await-disconnected rest u off)
    where
      leave : Outcome (UdpClient Socket) Bool → Option (Outcome (UdpClient Socket) (Unit {0}))
      leave (ok done t) =
          Option.map (ok tt)
            (await_disconnected asio (multicast_client asio true multicast) (round ∷ rest) t)
      leave (throw e t) = some (throw e t)

  -- DisconnectAndStop of a connected client comes back as soon as the handler that it posted has run,
  -- with the client disconnected and nothing more posted; had _stop not been set, that handler would
  -- have posted the next connect. The socket closes without an error.
  pub disconnect_and_stop_lem :
      (s : UdpClient Socket) (rest : List Round)
      → s.connected ≡ true
      → (asio.close (asio.cancel s.socket).0).1 ≡ none
      → (u : UdpClient Socket) × (disconnect_and_stop (handled true s ∷ rest) s ≡ some (ok tt u))
        × (u.connected ≡ false)
        × (u.pending ≡ s.pending)
        × ((handled false s (submit disconnect_handler (found s))).pending
            ≡ s.pending ++ (executor s.strand_required, connect_handler) ∷ [])
  unfolding run_disconnect
  disconnect_and_stop_lem s rest on closes = (
    gone (found s),
    disconnect_and_stop-round (handled true s) rest s (gone (found s)) on ended refl,
    refl,
    refl,
    ap (λ (o : Outcome (UdpClient Socket) (Unit {0})). (state o).pending)
        (ok->>= (disconnect asio (multicast_client asio false multicast)) _ (found s)
          (disconnect-again (found s) on closes)),
  )
    where
      ended : handled true s (submit disconnect_handler (found s)) ≡ gone (found s)
      ended =
          ap (λ (o : Outcome (UdpClient Socket) (Unit {0})). state o)
            (ok->>= (disconnect asio (multicast_client asio true multicast)) _ (found s)
              (disconnect-stopped (found s) on closes))
