-- ===== src/Programs/Network.antt =====
-- The two programs together: what is typed into server.cpp, on a network that loses nothing and keeps
-- the order, comes to the client of client.cpp.
use kernel_udp_tcp.Prelude.{
  ℕ, ◌%◌, ◌^◌, ◌<◌, ◌≡◌, refl, ap, sym, ◌∙◌, Bool, true, List, [], ◌∷◌, ◌++◌, Option, none, some,
  length, All, Text, arith,
}
use kernel_udp_tcp.Asio.{Asio, Bytes, Endpoint, InternetProtocol}
use kernel_udp_tcp.Asio.Action.{Act, Outcome, state, ok, ◌>>◌, ok->>=}
use kernel_udp_tcp.Asio.Success.{Succeeds}
use kernel_udp_tcp.UdpClient.Success.{Ready}
use kernel_udp_tcp.UdpServer.{UdpServer}
use kernel_udp_tcp.UdpClient.{UdpClient, on_connected, on_joined}
use kernel_udp_tcp.UdpClient.Connection.{run_connect}
use kernel_udp_tcp.Programs.MulticastServer.{message, broadcast_loop}
use kernel_udp_tcp.Programs.Broadcast.{IsMessage, all_typed, logged, loop_broadcasts}
use kernel_udp_tcp.Programs.MulticastClient.{multicast_client}
use kernel_udp_tcp.Programs.Listening.{Datagram, Listening, arrive_all, heard, arrive_all-heard}
use kernel_udp_tcp.Programs.Connecting.{run_connect-Listening}

-- The datagrams that lines become, with an endpoint.
abbrev pub datagrams : Endpoint → List Text → List Datagram
datagrams e [] = []
datagrams e (l ∷ ls) = (e, message l) ∷ datagrams e ls

-- What was sent to endpoints, as it comes from a sender.
abbrev pub from : Endpoint → List Datagram → List Datagram
from sender [] = []
from sender ((e, bytes) ∷ ds) = (sender, bytes) ∷ from sender ds

pub from-datagrams :
    (sender e : Endpoint) (ls : List Text) → from sender (datagrams e ls) ≡ datagrams sender ls
from-datagrams sender e [] = refl
from-datagrams sender e (l ∷ ls) = ap (◌∷◌ (sender, message l)) (from-datagrams sender e ls)

pub length-datagrams : (e : Endpoint) (ls : List Text) → length (datagrams e ls) ≡ length ls
length-datagrams e [] = refl
length-datagrams e (l ∷ ls) = omega (arith, length-datagrams e ls)

-- A line that is a message, whose datagram is shorter than a buffer.
abbrev pub Fits : ℕ → Text → Type 0
Fits room l = IsMessage l × (length (message l) < room)

pub Fits-IsMessage : (room : ℕ) (ls : List Text) → All (Fits room) ls → All IsMessage ls
Fits-IsMessage room [] h = tt
Fits-IsMessage room (l ∷ ls) h = (h.0.0, Fits-IsMessage room ls h.1)

Fits-datagrams :
    (room : ℕ) (e : Endpoint) (ls : List Text)
    → All (Fits room) ls
    → All (λ d. length d.1 < room) (datagrams e ls)
Fits-datagrams room e [] h = tt
Fits-datagrams room e (l ∷ ls) h = (h.0.1, Fits-datagrams room e ls h.1)

append_one : {A : Type 0} (xs ys : List A) (x : A) → (xs ++ x ∷ []) ++ ys ≡ xs ++ (x ∷ ys)
append_one [] ys x = refl
append_one (z ∷ xs) ys x = ap (◌∷◌ z) (append_one xs ys x)

append_nil : {A : Type 0} (xs : List A) → xs ≡ xs ++ []
append_nil [] = refl
append_nil (x ∷ xs) = ap (◌∷◌ x) (append_nil xs)

-- A socket of the server that sends every datagram whole, and what it has sent.
pub record Sends {Socket : Type 0} (asio : Asio Socket) (sent : Socket → List Datagram)
    : Type 0 where
  pub whole :
      (b : Bytes) (e : Endpoint) (k : Socket)
      → asio.send_to b e k ≡ ((asio.send_to b e k).0, length b, none)
  pub kept :
      (b : Bytes) (e : Endpoint) (k : Socket) → sent (asio.send_to b e k).0 ≡ sent k ++ (e, b) ∷ []

module _ {Socket : Type 0} (asio : Asio Socket) (sent : Socket → List Datagram)
    (sends : Sends asio sent) where
  pub sent-logged :
      (e : Endpoint) (ls : List Text) (k : Socket)
      → sent (logged asio (λ b e k. (asio.send_to b e k).0) e ls k) ≡ sent k ++ datagrams e ls
  sent-logged e [] k = append_nil (sent k)
  sent-logged e (l ∷ ls) k =
      sent-logged e ls (asio.send_to (message l) e k).0
      ∙ ap (λ ds. ds ++ datagrams e ls) (sends.kept (message l) e k)
      ∙ append_one (sent k) (datagrams e ls) (e, message l)

  -- What has been sent when the lines have been read, as it comes from a sender.
  pub sent_by_loop :
      (sender : Endpoint) (ls : List Text) (s u : UdpServer Socket)
      → s.started ≡ true
      → s.datagrams_sent < 2 ^ 64
      → sent s.socket ≡ []
      → All IsMessage ls
      → broadcast_loop asio (all_typed ls) s ≡ some (ok tt u)
      → from sender (sent u.socket) ≡ datagrams sender ls
  sent_by_loop sender ls s u on fits new messages run =
      let (t, ran, socket, counted, still, held) =
        loop_broadcasts asio (λ b e k. (asio.send_to b e k).0) ls s sends.whole on fits messages in
      let same : u ≡ t =
        ap
          (λ (o : Option (Outcome (UdpServer Socket) (Unit {0}))).
            elim o as (λ _. UdpServer Socket) [ none ↦ s | some r ↦ state r ])
          (sym run ∙ ran) in
      ap (from sender) (
        ap (λ (v : UdpServer Socket). sent v.socket) same
        ∙ ap sent socket
        ∙ sent-logged s.multicast_endpoint ls s.socket
        ∙ ap (λ ds. ds ++ datagrams s.multicast_endpoint ls) new)
      ∙ from-datagrams sender s.multicast_endpoint ls

module _ {Socket : Type 0} (asio : Asio Socket) (stop : Bool) (multicast : Text) where
  -- What happens at the client: it connects, and then the datagrams come.
  abbrev pub session : List Datagram → Act (UdpClient Socket) (Unit {0})
  session ds = do
    run_connect asio (multicast_client asio stop multicast)
    arrive_all asio (multicast_client asio stop multicast) ds

module _ {Socket Remote : Type 0} (asio : Asio Socket) (sent : Socket → List Datagram)
    (sends : Sends asio sent) (remote : Asio Remote) (IsClosed IsOpen : Remote → Type 0) (room : ℕ)
    (works : Succeeds remote IsClosed IsOpen room) (stop : Bool) (multicast : Text)
    (group : InternetProtocol × Text) (valid : remote.make_address multicast ≡ some group) where
  -- The lines that are typed into a started server, if each is a message, are what onReceived of a
  -- client that has connected before is called with, each behind the mark of the program, in the
  -- order of typing, after onConnected and onJoinedMulticastGroup; the client counts them and still
  -- listens. Every call of asio succeeds, the datagrams are shorter than the client's buffer, the
  -- network delivers all that the server sent in the order of sending, and no other thread does
  -- anything.
  pub typed_lines_heard :
      (sender : Endpoint) (ls : List Text) (s : UdpServer Socket) (c : UdpClient Remote)
      → s.started ≡ true
      → s.datagrams_sent < 2 ^ 64
      → sent s.socket ≡ []
      → Ready remote c
      → IsClosed c.socket
      → All (Fits room) ls
      → (u : UdpServer Socket) × (broadcast_loop asio (all_typed ls) s ≡ some (ok tt u))
        × (v : UdpClient Remote) × (session remote stop multicast (from sender (sent u.socket)) c
            ≡ ok tt v)
        × (v.calls ≡ heard (datagrams sender ls) (on_joined multicast ∷ on_connected ∷ c.calls))
        × (v.datagrams_received ≡ length ls % 2 ^ 64)
        × Listening room v
  typed_lines_heard sender ls s c on fits new ready closed small =
      let (u, run, socket, counted, still, held) =
        loop_broadcasts asio (λ b e k. (asio.send_to b e k).0) ls s sends.whole on fits
          (Fits-IsMessage room ls small) in
      let (t, connected, listens, calls, zeroed, on_open) =
        run_connect-Listening remote IsClosed IsOpen room works stop multicast group valid c ready
          closed in
      let (v, came, again, all, total, kept) =
        arrive_all-heard remote stop multicast room (datagrams sender ls) t listens
          (omega (arith, zeroed)) (Fits-datagrams room sender ls small) in
      let carried =
        sent_by_loop asio sent sends sender ls s u on fits new (Fits-IsMessage room ls small) run in
      (
        u,
        run,
        v,
        ap (λ ds. session remote stop multicast ds c) carried
            ∙ (ok->>= (run_connect remote (multicast_client remote stop multicast)) _ c connected
                ∙ came),
        all ∙ ap (heard (datagrams sender ls)) calls,
        omega (arith, total, zeroed, length-datagrams sender ls),
        again,
      )
