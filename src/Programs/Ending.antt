-- ===== src/Programs/Ending.antt =====
-- server.cpp when the calls of asio succeed: what it sends, and that it ends.
use kernel_udp_tcp.Prelude.{
  ℕ, ◌%◌, ◌^◌, ◌≡◌, refl, ap, sym, subst, ◌++◌, ◌∙◌, true, false, List, [], ◌∷◌, Option, none, some,
  length, All, Text, if-true, arith,
}
use kernel_udp_tcp.Asio.{Asio, executor, Bytes, Endpoint, InternetProtocol, ipv4}
use kernel_udp_tcp.Asio.Action.{Outcome, ok, throw, ◌>>=◌, skip, ok->>=}
use kernel_udp_tcp.Asio.Success.{Succeeds}
use kernel_udp_tcp.Service.Lifecycle
use kernel_udp_tcp.Service.Lifecycle.{Move, runs, leaves, requested}
use kernel_udp_tcp.UdpServer
use kernel_udp_tcp.UdpServer.{UdpServer, no_overrides, of_port, submit, stop_handler}
use kernel_udp_tcp.UdpServer.Lifecycle.{run_start, stop}
use kernel_udp_tcp.UdpServer.Restart.{down, run_stop-down}
use kernel_udp_tcp.UdpServer.Success.{up, run_start_succeeds}
use kernel_udp_tcp.UdpServer.Step.{Completion, run_task}
use kernel_udp_tcp.Programs.MulticastServer.{message, Input, broadcast_loop, serve}
use kernel_udp_tcp.Programs.Broadcast.{IsMessage, all_typed, logged, loop_broadcasts}
use kernel_udp_tcp.Programs.Turns.{World, settled, taken, turn, turns, finish}
use kernel_udp_tcp.Programs.ServerMain.{handle, oldest, broadcasts_on, main}
use kernel_udp_tcp.Programs.Going.{going, gone, start_goes, stop_goes}
use kernel_udp_tcp.Programs.Asked.{made_for, asked, broadcasts_on-asked}

-- A socket that has just been opened is open, stays so when it sends, and can be closed.
pub record Sending {Socket : Type 0} (asio : Asio Socket) (IsNew IsOpen : Socket → Type 0)
    (log : Bytes → Endpoint → Socket → Socket) : Type 0 where
  pub whole :
      (b : Bytes) (e : Endpoint) (k : Socket) → asio.send_to b e k ≡ (log b e k, length b, none)
  pub opened : (k : Socket) → IsNew k → IsOpen k
  pub stays : (b : Bytes) (e : Endpoint) (k : Socket) → IsOpen k → IsOpen (log b e k)
  pub closes : (k : Socket) → IsOpen k → (asio.close k).1 ≡ none

module _ {Socket : Type 0} (asio : Asio Socket) where
  logged-stays :
      (IsNew IsOpen : Socket → Type 0) (log : Bytes → Endpoint → Socket → Socket)
      → Sending asio IsNew IsOpen log
      → (e : Endpoint) (ls : List Text) (k : Socket) → IsOpen k
      → IsOpen (logged asio log e ls k)
  logged-stays IsNew IsOpen log sending e [] k h = h
  logged-stays IsNew IsOpen log sending e (l ∷ ls) k h =
      logged-stays IsNew IsOpen log sending e ls (log (message l) e k)
        (sending.stays (message l) e k h)

  -- The thread runs the stop handler, the only one that the server has posted.
  turn_stops :
      (c : Completion) (t : UdpServer Socket)
      → t.started ≡ true
      → (asio.close t.socket).1 ≡ none
      → turns (oldest asio) (c ∷ []) (record {
        object = record t { pending = (executor t.strand_required, stop_handler) ∷ [] };
        service = going;
      })
        ≡ record { object = down asio (record t { pending = [] }); service = going }
  unfolding turns turn taken handle settled run_task
  turn_stops c t on closes =
      ap (λ o. settled o going) (run_stop-down asio (record t { pending = [] }) on closes)

  -- The stop of the server at the end of the loop only posts its handler.
  stop_asked :
      (s : UdpServer Socket)
      → s.started ≡ true
      → (stop asio no_overrides >>= λ _. skip) s ≡ ok tt (submit stop_handler s)
  unfolding stop
  stop_asked s on = ok->>= (stop asio no_overrides) (λ _. skip) s (if-true _ _ on)

  -- Once the thread has run the stop handler of the server, and that of the service's Stop.
  finish_goes :
      (c : Completion) (inputs : List (Input Socket)) (more : List Move) (s t : UdpServer Socket)
      → broadcast_loop asio inputs s ≡ some (ok tt t)
      → t.started ≡ true
      → t.pending ≡ []
      → (asio.close t.socket).1 ≡ none
      → finish (oldest asio) (c ∷ []) (runs 0 ∷ leaves 0 ∷ more) going (serve asio inputs s)
        ≡ some (ok tt (record { object = down asio (record t { pending = [] }); service = gone }))
  unfolding finish serve
  finish_goes c inputs more s t run on idle closes =
      ap
        (λ o.
          finish (oldest asio) (c ∷ []) (runs 0 ∷ leaves 0 ∷ more) going
            (elim o as (λ _. Option (Outcome (UdpServer Socket) (Unit {0}))) [
              | none ↦ none
              | some (ok done t) ↦ some ((stop asio no_overrides >>= λ _. skip) t)
              | some (throw e t) ↦ some (throw e t)
            ]))
        run
      ∙ ap (λ o. finish (oldest asio) (c ∷ []) (runs 0 ∷ leaves 0 ∷ more) going (some o))
          (stop_asked t on)
      ∙ ap stops (
          ap
            (λ p. turns (oldest asio) (c ∷ []) (record {
              object = record t { pending = p ++ (executor t.strand_required, stop_handler) ∷ [] };
              service = going;
            }))
            idle
          ∙ turn_stops c (record t { pending = [] }) on closes)
      ∙ ap
          (λ (o : Lifecycle.Outcome).
            elim o as (λ _. Option (Outcome (World (UdpServer Socket)) (Unit {0}))) [
              | none ↦ none
              | some (done, service, rest) ↦ some (
                  ok tt
                    (record { object = down asio (record t { pending = [] }); service = service }))
            ])
          (stop_goes more)
    where
      stops : World (UdpServer Socket) → Option (Outcome (World (UdpServer Socket)) (Unit {0}))
      stops w = elim (Lifecycle.stop (runs 0 ∷ leaves 0 ∷ more) w.service) [
        | none ↦ none
        | some (done, service, rest) ↦
            some (ok tt (record { object = w.object; service = service }))
      ]

  turn_goes :
      (c : Completion) (s u : UdpServer Socket)
      → run_start asio no_overrides (record s { pending = [] }) ≡ ok tt u
      → turns (oldest asio) (c ∷ []) (asked asio s going) ≡ record { object = u; service = going }
  unfolding turns turn taken handle settled run_task
  turn_goes c s u e = ap (λ o. settled o going) e

  module _ (IsClosed IsNew IsOpen : Socket → Type 0) (room : ℕ)
      (works : Succeeds asio IsClosed IsNew room) (log : Bytes → Endpoint → Socket → Socket)
      (sending : Sending asio IsNew IsOpen log) where
    -- The program of server.cpp ends, with every line sent that was typed: each, if it is a message,
    -- as one datagram to the group, in the order of typing, from the socket that was opened; the
    -- server is then stopped, its socket closed after the last datagram, and the service is stopped.
    -- Every call of asio succeeds, the address is valid, and the thread of the service runs the
    -- handlers of both starts before the lines are read, and those of both stops after them, in the
    -- order in which they are posted.
    pub main_ends :
        (id : Bytes) (socket : Socket) (unset : Endpoint) (address : Text) (port : ℕ)
        (c d : Completion) (ls : List Text) (starting ending : List Move)
        (h : InternetProtocol × Text)
        → IsClosed socket
        → asio.make_address address ≡ some h
        → All IsMessage ls
        → (k : Socket) × IsNew k
          × (w : World (UdpServer Socket)) × (main asio id socket unset address port
                (runs 0 ∷ starting)
                (c ∷ [])
                (all_typed ls)
                (d ∷ [])
                (runs 0 ∷ leaves 0 ∷ ending)
              ≡ some (ok tt w))
          × (w.object.socket
              ≡ (asio.close (
                  logged asio log
                    (made_for asio id socket unset h port).multicast_endpoint
                    ls
                    k)).0)
          × (w.object.datagrams_sent ≡ length ls % 2 ^ 64)
          × (w.object.started ≡ false)
          × (w.object.pending ≡ [])
          × (w.service.started ≡ false)
    unfolding main broadcasts_on of_port
    main_ends id socket unset address port c d ls starting ending h closed valid messages =
        let s = made_for asio id socket unset h port in
        let (k, new_k, started) =
          run_start_succeeds asio IsClosed IsNew room works no_overrides s refl closed in
        let v = up asio IsClosed IsNew room works no_overrides k s in
        let u : UdpServer Socket = record v { calls = UdpServer.on_started ∷ v.calls } in
        let (t, run, sent, counted, on, idle) =
          loop_broadcasts asio log ls u sending.whole refl (omega arith) messages in
        let closes : (asio.close t.socket).1 ≡ none = sending.closes t.socket (
          subst IsOpen (sym sent) (
            logged-stays IsNew IsOpen log sending u.multicast_endpoint ls k
              (sending.opened k new_k))) in
        (
          k,
          new_k,
          record { object = down asio (record t { pending = [] }); service = gone },
          ap goes (start_goes starting)
              ∙ broadcasts_on-asked asio id socket unset address port (c ∷ []) (all_typed ls)
                  (d ∷ []) (runs 0 ∷ leaves 0 ∷ ending) going h valid
              ∙ ap
                  (λ (w : World (UdpServer Socket)).
                    finish (oldest asio) (d ∷ []) (runs 0 ∷ leaves 0 ∷ ending) w.service
                      (serve asio (all_typed ls) w.object))
                  (turn_goes c s u started)
              ∙ finish_goes d (all_typed ls) ending u t run on idle closes,
          ap (λ x. (asio.close x).0) sent,
          omega (arith, counted),
          refl,
          refl,
          refl,
        )
      where
        goes : Lifecycle.Outcome → Option (Outcome (World (UdpServer Socket)) (Unit {0}))
        goes none = none
        goes (some (done, service, rest)) =
            broadcasts_on asio address port (of_port asio id false socket unset 0 ipv4) (c ∷ [])
              (all_typed ls) (d ∷ []) (runs 0 ∷ leaves 0 ∷ ending) service
