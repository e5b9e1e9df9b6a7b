-- ===== src/UdpServer/Delivery.antt =====
-- What a send and a receive of UDPServer do as a whole, with the base class's virtual methods.
use kernel_udp_tcp.Prelude.{
  ℕ, ◌*◌, ◌%◌, ◌^◌, ◌≤◌, ◌<◌, ◌≡◌, refl, ◌∙◌, Bool-cases, ◌⊎◌, inl, inr, true, false, ◌&&◌, [], ◌∷◌,
  ◌++◌, none, some, length, take, drop, take-append, arith, ltb, ◌==◌, if◌then◌else◌,
}
use kernel_udp_tcp.Asio.{Asio, Bytes, Endpoint}
use kernel_udp_tcp.Asio.Action.{ok, state}
use kernel_udp_tcp.UdpServer.{
  UdpServer, no_overrides, resize, executor, async_send_to, async_receive_from, submit, add64,
  on_sent, on_received,
}
use kernel_udp_tcp.UdpServer.Send.{send, send_async, run_send, begin_send}
use kernel_udp_tcp.UdpServer.Receive.{counted_received, delivered, grow, try_receive, run_receive}

module _ {Socket : Type 0} (asio : Asio Socket) where
  -- Send of a buffer returns what went out, or 0 at a guard, and never throws. One datagram is
  -- counted exactly if something went out, and the bytes are what went out.
  pub send-counts :
      (e : Endpoint) (b : Bytes) (n : ℕ) (s : UdpServer Socket)
      → let tried = s.started && ltb 0 n in
        let out = (if tried then (asio.send_to (take n b) e s.socket).1 else 0) in
        (t : UdpServer Socket) × (send asio no_overrides e (some b) n s ≡ ok out t)
        × (t.datagrams_sent ≡ (if ltb 0 out then add64 s.datagrams_sent 1 else s.datagrams_sent))
        × (t.bytes_sent ≡ (if ltb 0 out then add64 s.bytes_sent out else s.bytes_sent))
        × (t.pending ≡ s.pending)
  unfolding send
  send-counts e b n s = (
    state (send asio no_overrides e (some b) n s),
    ground arith,
    ground arith,
    ground arith,
    ground arith,
  )

  -- The server after a datagram of m bytes to e went out asynchronously.
  abbrev pub Delivered : Endpoint → ℕ → UdpServer Socket → UdpServer Socket → Type 0
  Delivered e m s u =
      (u.sending ≡ false)
      × (u.bytes_sending ≡ 0)
      × (u.send_buffer ≡ [])
      × (u.bytes_sent ≡ add64 s.bytes_sent m)
      × (u.datagrams_sent ≡ s.datagrams_sent)
      × (u.calls ≡ on_sent e m ∷ s.calls)

  -- On a started server with no send under way, SendAsync of n > 0 bytes within the limit (or with
  -- no limit) returns true and hands exactly those bytes to asio as its newest operation; when that
  -- completes with m > 0 bytes sent, SendAsync is free again, nothing is buffered, the m bytes are
  -- counted and onSent is called with them, while datagrams_sent() stays as it was.
  pub send_async-run_send :
      (e : Endpoint) (b : Bytes) (n m : ℕ) (s : UdpServer Socket)
      → s.started ≡ true
      → s.sending ≡ false
      → 0 < n
      → (s.send_buffer_limit ≡ 0) ⊎ (n ≤ s.send_buffer_limit)
      → 0 < m
      → (t : UdpServer Socket) × (send_async asio no_overrides e (some b) n s ≡ ok true t)
        × (t.pending ≡ s.pending ++ (executor s.strand_required, async_send_to (take n b) e) ∷ [])
        × (t.bytes_sending ≡ length (take n b))
        × (u : UdpServer Socket) × (run_send asio no_overrides none m
              (record t { pending = s.pending })
            ≡ ok tt u)
        × Delivered e m s u
  unfolding send_async run_send
  send_async-run_send e b n m s on free some_bytes limit moved =
      let t = begin_send asio no_overrides e (take n b) s in
      (
        t,
        ground arith,
        refl,
        refl,
        state (run_send asio no_overrides none m (record t { pending = s.pending })),
        ground arith,
        ground arith,
      )

  -- With no limit the buffer is the only field that growing may change.
  grow_quiet :
      (size : ℕ) (s : UdpServer Socket)
      → s.receive_buffer_limit ≡ 0
      → (b : Bytes) × (grow asio no_overrides size s ≡ ok tt (record s { receive_buffer = b }))
  unfolding grow
  grow_quiet size s h = elim (Bool-cases (length s.receive_buffer == size)) [
    | inl full ↦ (resize (2 * size % 2 ^ 64) s.receive_buffer, ground arith)
    | inr room ↦ (s.receive_buffer, ground arith)
  ]

  -- The server as it is when the receive handler comes to the growth of its buffer.
  abbrev arrived : Endpoint → Bytes → UdpServer Socket → UdpServer Socket
  arrived e bytes s =
      let t =
        counted_received asio no_overrides (length bytes)
          (record (delivered asio no_overrides e bytes s) { receiving = false }) in
      record t { calls = on_received e bytes ∷ t.calls }

  run_receive-arrived :
      (e : Endpoint) (bytes : Bytes) (s : UdpServer Socket)
      → s.started ≡ true
      → run_receive asio no_overrides none e bytes s
        ≡ grow asio no_overrides (length bytes) (arrived e bytes s)
  unfolding run_receive
  run_receive-arrived e bytes s on =
      simp (on, take-append bytes (drop (length bytes) s.receive_buffer))

  -- On a started server with no receive under way and no buffer limit, ReceiveAsync asks asio for
  -- the whole buffer; when a datagram that fits arrives, it is counted with its bytes, onReceived
  -- is the only virtual call, with the sender and exactly those bytes, and ReceiveAsync is free
  -- again.
  pub try_receive-run_receive :
      (e : Endpoint) (bytes : Bytes) (s : UdpServer Socket)
      → s.started ≡ true
      → s.receiving ≡ false
      → s.receive_buffer_limit ≡ 0
      → length bytes ≤ length s.receive_buffer
      → (t : UdpServer Socket) × (try_receive asio no_overrides s ≡ ok tt t)
        × (t.pending
            ≡ s.pending
              ++ (executor s.strand_required, async_receive_from (length s.receive_buffer)) ∷ [])
        × (u : UdpServer Socket) × (run_receive asio no_overrides none e bytes
              (record t { pending = s.pending })
            ≡ ok tt u)
        × (u.receiving ≡ false)
        × (u.bytes_received ≡ add64 s.bytes_received (length bytes))
        × (u.datagrams_received ≡ add64 s.datagrams_received 1)
        × (u.calls ≡ on_received e bytes ∷ s.calls)
  unfolding try_receive
  try_receive-run_receive e bytes s on free no_limit fits =
      let t : UdpServer Socket =
        submit (async_receive_from (length s.receive_buffer)) (record s { receiving = true }) in
      let t' : UdpServer Socket = record t { pending = s.pending } in
      let (b, grown) = grow_quiet (length bytes) (arrived e bytes t') no_limit in
      (
        t,
        ground arith,
        refl,
        record (arrived e bytes t') { receive_buffer = b },
        run_receive-arrived e bytes t' on ∙ grown,
        refl,
        refl,
        refl,
        refl,
      )
