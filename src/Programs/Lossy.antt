-- ===== src/Programs/Lossy.antt =====
-- The two programs on a network that may lose, repeat and reorder datagrams.
use mathlib.Core.Logic.{∥∥₁_elim}
use mathlib.Core.Logic.Or
use mathlib.Core.List.{Mem, map, mem-map, mem-cons, not-mem-nil}
use native.Mathlib.Bridge.{le_prop}
use kernel_udp_tcp.Prelude.{
  ℕ, ◌^◌, ◌<◌, ◌≡◌, refl, ap, sym, subst, ◌∙◌, Bool, true, List, [], ◌∷◌, some, length, All, Text,
  arith,
}
use kernel_udp_tcp.Asio.{Asio, Endpoint, InternetProtocol}
use kernel_udp_tcp.Asio.Action.{ok, ok->>=}
use kernel_udp_tcp.Asio.Success.{Succeeds}
use kernel_udp_tcp.UdpServer.{UdpServer}
use kernel_udp_tcp.UdpClient.{UdpClient, on_connected, on_joined}
use kernel_udp_tcp.UdpClient.Success.{Ready}
use kernel_udp_tcp.UdpClient.Connection.{run_connect}
use kernel_udp_tcp.Programs.MulticastServer.{message, broadcast_loop}
use kernel_udp_tcp.Programs.MulticastClient.{multicast_client}
use kernel_udp_tcp.Programs.Broadcast.{all_typed}
use kernel_udp_tcp.Programs.Listening.{Datagram, Listening, heard, arrive_all-heard}
use kernel_udp_tcp.Programs.Connecting.{run_connect-Listening}
use kernel_udp_tcp.Programs.Network.{
  Sends, datagrams, from, Fits, Fits-IsMessage, session, sent_by_loop,
}

-- A datagram is the message of a line that was typed.
abbrev pub Said : Endpoint → List Text → Datagram → Type 0
Said sender ls d = ∥ ((l : Text) × Mem l ls × ((sender, message l) ≡ d)) ∥₁

datagrams-map : (e : Endpoint) (ls : List Text) → datagrams e ls ≡ map (λ l. (e, message l)) ls
datagrams-map e [] = refl
datagrams-map e (l ∷ ls) = ap (◌∷◌ (e, message l)) (datagrams-map e ls)

Said-datagrams :
    (e : Endpoint) (ls : List Text) (d : Datagram) → Mem d (datagrams e ls) → Said e ls d
Said-datagrams e ls d m = mem-map.0 (subst (Mem d) (datagrams-map e ls) m)

-- A line that was typed fits, if all do.
mem-Fits :
    (room : ℕ) (ls : List Text) (l : Text)
    → All (Fits room) ls
    → Mem l ls
    → length (message l) < room
mem-Fits room [] l h m = absurd (not-mem-nil m)
mem-Fits room (k ∷ ls) l h m =
    Or.elim le_prop (mem-cons.0 m) (λ e. subst (λ x. length (message x) < room) (sym e) h.0.1)
      (mem-Fits room ls l h.1)

All-map :
    {P Q : Datagram → Type 0} (ds : List Datagram)
    → ((d : Datagram) → P d → Q d)
    → All P ds
    → All Q ds
All-map [] f h = tt
All-map (d ∷ ds) f h = (f d h.0, All-map ds f h.1)

Said-lt :
    (room : ℕ) (sender : Endpoint) (ls : List Text) (d : Datagram)
    → All (Fits room) ls
    → Said sender ls d
    → length d.1 < room
Said-lt room sender ls d h t =
    ∥∥₁_elim t le_prop λ p. subst (λ x. length x.1 < room) p.2 (mem-Fits room ls p.0 h p.1)

module _ {Socket Remote : Type 0} (asio : Asio Socket) (sent : Socket → List Datagram)
    (sends : Sends asio sent) (remote : Asio Remote) (IsClosed IsOpen : Remote → Type 0) (room : ℕ)
    (works : Succeeds remote IsClosed IsOpen room) (stop : Bool) (multicast : Text)
    (group : InternetProtocol × Text) (valid : remote.make_address multicast ≡ some group) where
  -- Whatever of what server.cpp sent a network brings to the client of client.cpp, in whatever
  -- order and however often, onReceived of the client is called with exactly what was brought, each
  -- of it the message of a line that was typed, and the client still listens. The calls of asio
  -- succeed, the lines are messages whose datagrams are shorter than the buffer of the client, and
  -- the client has connected before.
  pub only_typed_heard :
      (sender : Endpoint) (ls : List Text) (s u : UdpServer Socket) (c : UdpClient Remote)
      (ds : List Datagram)
      → s.started ≡ true
      → s.datagrams_sent < 2 ^ 64
      → sent s.socket ≡ []
      → All (Fits room) ls
      → broadcast_loop asio (all_typed ls) s ≡ some (ok tt u)
      → All (λ d. Mem d (from sender (sent u.socket))) ds
      → Ready remote c
      → IsClosed c.socket
      → (v : UdpClient Remote) × (session remote stop multicast ds c ≡ ok tt v)
        × (v.calls ≡ heard ds (on_joined multicast ∷ on_connected ∷ c.calls))
        × All (Said sender ls) ds
        × Listening room v
  only_typed_heard sender ls s u c ds on fits new small run brought ready closed =
      let carried =
        sent_by_loop asio sent sends sender ls s u on fits new (Fits-IsMessage room ls small) run in
      let typed =
        All-map ds (λ d m. Said-datagrams sender ls d (subst (Mem d) carried m)) brought in
      let (t, connected, listens, calls, zeroed, on_open) =
        run_connect-Listening remote IsClosed IsOpen room works stop multicast group valid c ready
          closed in
      let (v, came, again, all, total, kept) =
        arrive_all-heard remote stop multicast room ds t listens (omega (arith, zeroed))
          (All-map ds (λ d. Said-lt room sender ls d small) typed) in
      (
        v,
        ok->>= (run_connect remote (multicast_client remote stop multicast)) _ c connected ∙ came,
        all ∙ ap (heard ds) calls,
        typed,
        again,
      )
