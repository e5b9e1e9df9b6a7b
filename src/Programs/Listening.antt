-- ===== src/Programs/Listening.antt =====
-- MulticastClient (client.cpp) while datagrams arrive: each finds a receive under way, and its
-- handler starts the next one.
use kernel_udp_tcp.Prelude.{
  ℕ, ◌+◌, ◌%◌, ◌^◌, ◌<◌, ◌≡◌, refl, ap, sym, ◌∙◌, Bool, true, false, not, List, [], ◌∷◌, ◌++◌, none,
  length, take, drop, take-append, take_all, All, arith, ◌==◌, if-true, if-not,
}
use kernel_udp_tcp.Asio.{Asio, Bytes, Endpoint, Executor, Text, add64, executor}
use kernel_udp_tcp.Asio.Action.{Act, ok, ◌>>◌, skip, ok->>=}
use kernel_udp_tcp.Asio.Buffers.{length-delivered}
use kernel_udp_tcp.UdpClient.{
  UdpClient, Task, Overrides, Callback, on_received, async_receive_from, call_back,
}
use kernel_udp_tcp.UdpClient.Receive.{
  receive_async, delivered, counted_received, grow, finish_receive, run_receive,
}
use kernel_udp_tcp.Programs.MulticastClient.{multicast_client}
use kernel_udp_tcp.Programs.Growth.{listening, try_receive-listening}

-- A datagram with its sender.
abbrev pub Datagram : Type 0
Datagram = Endpoint × Bytes

module _ {Socket : Type 0} (asio : Asio Socket) (on : Overrides Socket) where
  -- asio hands a datagram to the oldest operation, a receive, and runs its handler; a datagram that
  -- finds no receive under way is dropped.
  unfoldable pub handed : Datagram → List (Executor × Task) → Act (UdpClient Socket) (Unit {0})
  handed (from, bytes) ((x, async_receive_from room) ∷ rest) s =
      run_receive asio on none from (take room bytes) (record s { pending = rest })
  handed d _ s = ok tt s

  unfoldable pub arrive : Datagram → Act (UdpClient Socket) (Unit {0})
  unfolding handed
  arrive d s = handed d s.pending s

  unfoldable pub arrive_all : List Datagram → Act (UdpClient Socket) (Unit {0})
  unfolding arrive
  arrive_all [] = skip
  arrive_all (d ∷ ds) = do arrive d; arrive_all ds

-- Connected, with one receive into the whole buffer under way and nothing else.
pub record Listening {Socket : Type 0} (room : ℕ) (s : UdpClient Socket) : Type 0 where
  pub connected : s.connected ≡ true
  pub buffer : length s.receive_buffer ≡ room
  pub under_way : s.pending ≡ (executor s.strand_required, async_receive_from room) ∷ []

-- The calls of onReceived that datagrams make, the newest first, in front of earlier calls.
abbrev pub heard : List Datagram → List Callback → List Callback
heard [] calls = calls
heard ((from, bytes) ∷ ds) calls = heard ds (on_received from bytes ∷ calls)

module _ {Socket : Type 0} (asio : Asio Socket) (stop : Bool) (multicast : Text) where
  abbrev client : Overrides Socket
  client = multicast_client asio stop multicast

  grow_unfilled :
      (n : ℕ) (s : UdpClient Socket) → n < length s.receive_buffer → grow asio client n s ≡ ok tt s
  unfolding grow
  grow_unfilled n s room = if-true {b = not (length s.receive_buffer == n)} _ _ (ground arith)

  run_receive-heard :
      (from : Endpoint) (bytes : Bytes) (s : UdpClient Socket)
      → s.connected ≡ true
      → length bytes < length s.receive_buffer
      → (t : UdpClient Socket) × (run_receive asio client none from bytes s ≡ ok tt t)
        × (t.connected ≡ true)
        × (length t.receive_buffer ≡ length s.receive_buffer)
        × (t.strand_required ≡ s.strand_required)
        × (t.pending
            ≡ s.pending
              ++ (executor s.strand_required, async_receive_from (length s.receive_buffer)) ∷ [])
        × (t.calls ≡ on_received from bytes ∷ s.calls)
        × (t.datagrams_received ≡ add64 s.datagrams_received 1)
        × (t.bytes_received ≡ add64 s.bytes_received (length bytes))
        × (t.socket ≡ s.socket)
  unfolding run_receive finish_receive multicast_client receive_async
  run_receive-heard from bytes s up room =
      let n = length bytes in
      let u : UdpClient Socket = record (delivered asio client from bytes s) {
        receiving = false;
      } in
      let c : UdpClient Socket = counted_received asio client n u in
      let c' : UdpClient Socket = record c {
        calls = on_received from (take n c.receive_buffer) ∷ c.calls;
      } in
      let d = listening asio stop multicast c' in
      let same : length c'.receive_buffer ≡ length s.receive_buffer =
        length-delivered bytes s.receive_buffer (omega arith) in
      (
        d,
        if-not _ _ up
            ∙ (ok->>= (call_back client (on_received from (take n c.receive_buffer))) _ c
                  (try_receive-listening asio stop multicast c' up refl)
                ∙ grow_unfilled n d (omega arith)),
        up,
        same,
        refl,
        rw same refl,
        ap (λ b. on_received from b ∷ s.calls) (take-append bytes (drop n s.receive_buffer)),
        refl,
        refl,
        refl,
      )

  arrive-heard :
      (room : ℕ) (from : Endpoint) (bytes : Bytes) (s : UdpClient Socket)
      → Listening room s
      → length bytes < room
      → (t : UdpClient Socket) × (arrive asio client (from, bytes) s ≡ ok tt t)
        × Listening room t
        × (t.calls ≡ on_received from bytes ∷ s.calls)
        × (t.datagrams_received ≡ add64 s.datagrams_received 1)
        × (t.bytes_received ≡ add64 s.bytes_received (length bytes))
        × (t.socket ≡ s.socket)
  unfolding arrive
  arrive-heard room from bytes s l small =
      let t : UdpClient Socket = record s { pending = [] } in
      let (u, run, up, same, strands, next, calls, counted, moved, kept) =
        run_receive-heard from bytes t l.connected (omega (arith, l.buffer)) in
      (
        u,
        ap (λ l. handed asio client (from, bytes) l s) l.under_way
            ∙ ap (λ b. run_receive asio client none from b t) (take_all room bytes (omega arith))
            ∙ run,
        record {
          connected = up;
          buffer = same ∙ l.buffer;
          under_way =
              next
              ∙ ap (λ x. (executor s.strand_required, async_receive_from x) ∷ []) l.buffer
              ∙ ap (λ b. (executor b, async_receive_from room) ∷ []) (sym strands);
        },
        calls,
        counted,
        moved,
        kept,
      )

  -- Whatever datagrams arrive, each with room to spare in the receive buffer, a MulticastClient
  -- that listens calls onReceived with each of them and its sender, in the order of arrival, counts
  -- them all, and listens again after the last, on the same socket.
  pub arrive_all-heard :
      (room : ℕ) (ds : List Datagram) (s : UdpClient Socket)
      → Listening room s
      → s.datagrams_received < 2 ^ 64
      → All (λ d. length d.1 < room) ds
      → (t : UdpClient Socket) × (arrive_all asio client ds s ≡ ok tt t)
        × Listening room t
        × (t.calls ≡ heard ds s.calls)
        × (t.datagrams_received ≡ (s.datagrams_received + length ds) % 2 ^ 64)
        × (t.socket ≡ s.socket)
  unfolding arrive_all
  arrive_all-heard room [] s l fits small = (s, refl, l, refl, omega (arith, fits), refl)
  arrive_all-heard room ((from, bytes) ∷ ds) s l fits small =
      let (t, run, again, calls, counted, moved, kept) = arrive-heard room from bytes s l small.0 in
      let (u, later, still, all, total, same) =
        arrive_all-heard room ds t again (omega (arith, counted)) small.1 in
      (
        u,
        ok->>= (arrive asio client (from, bytes)) _ s run ∙ later,
        still,
        all ∙ ap (heard ds) calls,
        omega (arith, total, counted),
        same ∙ kept,
      )
