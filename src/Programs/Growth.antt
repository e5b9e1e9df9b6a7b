-- ===== src/Programs/Growth.antt =====
-- MulticastClient (client.cpp) and the growth of the receive buffer under it.
use kernel_udp_tcp.Prelude.{
  if-not, if-false, ℕ, ◌*◌, ◌^◌, ◌%◌, ◌<◌, ◌≡◌, refl, ◌∙◌, Bool, true, false, not, [], ◌∷◌, ◌++◌,
  none, length, take, arith, ◌==◌, ltb, ◌&&◌,
}
use kernel_udp_tcp.Asio.{Asio, Bytes, Endpoint, Text, executor, resize}
use kernel_udp_tcp.Asio.Action.{ok, ok->>=}
use kernel_udp_tcp.UdpClient.{
  UdpClient, no_overrides, on_received, async_receive_from, submit, call_back,
}
use kernel_udp_tcp.UdpClient.Receive.{
  receive_async, try_receive, delivered, counted_received, grow, finish_receive, run_receive,
}
use kernel_udp_tcp.Asio.Buffers.{length-resize, length-delivered}
use kernel_udp_tcp.Programs.MulticastClient.{multicast_client}

module _ {Socket : Type 0} (asio : Asio Socket) (stop : Bool) (multicast : Text) where
  -- The client with a receive of its whole buffer under way.
  abbrev pub listening : UdpClient Socket → UdpClient Socket
  listening s =
      submit (async_receive_from (length s.receive_buffer)) (record s { receiving = true })

  pub try_receive-listening :
      (s : UdpClient Socket)
      → s.connected ≡ true
      → s.receiving ≡ false
      → try_receive asio no_overrides s ≡ ok tt (listening s)
  unfolding try_receive
  try_receive-listening s up free = if-false _ _ free ∙ if-not _ _ up

  grow_filled :
      (n : ℕ) (s : UdpClient Socket)
      → s.receive_buffer_limit ≡ 0
      → length s.receive_buffer ≡ n
      → grow asio (multicast_client asio stop multicast) n s
        ≡ ok tt (record s { receive_buffer = resize (2 * n % 2 ^ 64) s.receive_buffer })
  unfolding grow
  grow_filled n s no_limit filled =
      if-false {b = not (length s.receive_buffer == n)} _ _ (ground arith)
      ∙ if-false {b = ltb s.receive_buffer_limit (2 * n % 2 ^ 64) && ltb 0 s.receive_buffer_limit} _
          _ (ground arith)

  -- A datagram that fills the receive buffer of a connected MulticastClient makes onReceived start
  -- the next receive, into the buffer as it is, and the handler then doubles the buffer: the
  -- operation under way has the old room. The buffer has no limit and twice its size is below 2^64.
  pub full_datagram-listening :
      (from : Endpoint) (bytes : Bytes) (s : UdpClient Socket)
      → s.connected ≡ true
      → s.receive_buffer_limit ≡ 0
      → length bytes ≡ length s.receive_buffer
      → 2 * length s.receive_buffer < 2 ^ 64
      → (t : UdpClient Socket) × (run_receive asio
            (multicast_client asio stop multicast)
            none
            from
            bytes
            s
          ≡ ok tt t)
        × (t.pending
            ≡ s.pending
              ++ (executor s.strand_required, async_receive_from (length s.receive_buffer)) ∷ [])
        × (length t.receive_buffer ≡ 2 * length s.receive_buffer)
  unfolding run_receive finish_receive multicast_client receive_async
  full_datagram-listening from bytes s up no_limit full small =
      let on = multicast_client asio stop multicast in
      let n = length bytes in
      let u : UdpClient Socket = record (delivered asio on from bytes s) { receiving = false } in
      let c : UdpClient Socket = counted_received asio on n u in
      let c' : UdpClient Socket = record c {
        calls = on_received from (take n c.receive_buffer) ∷ c.calls;
      } in
      let d = listening c' in
      let same : length c'.receive_buffer ≡ length s.receive_buffer =
        length-delivered bytes s.receive_buffer (omega arith) in
      (
        record d { receive_buffer = resize (2 * n % 2 ^ 64) d.receive_buffer },
        if-not _ _ up
            ∙ (ok->>= (call_back on (on_received from (take n c.receive_buffer))) _ c
                  (try_receive-listening c' up refl)
                ∙ grow_filled n d no_limit (omega arith)),
        rw same refl,
        length-resize (2 * n % 2 ^ 64) d.receive_buffer ∙ omega arith,
      )
