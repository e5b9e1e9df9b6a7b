-- ===== src/UdpClient/Delivery.antt =====
-- What an asynchronous send of UDPClient does as a whole, with the base class's virtual methods.
use kernel_udp_tcp.Prelude.{
  ℕ, ◌≤◌, ◌<◌, ◌≡◌, refl, ◌∙◌, ◌⊎◌, true, false, [], ◌∷◌, ◌++◌, none, some, length, take, arith,
  if-not,
}
use kernel_udp_tcp.Asio.{Asio, Bytes, Endpoint, ErrorCode, add64, executor}
use kernel_udp_tcp.Asio.Action.{ok, state}
use kernel_udp_tcp.UdpClient.{UdpClient, no_overrides, async_send_to, on_sent}
use kernel_udp_tcp.UdpClient.Connection.{cancelled}
use kernel_udp_tcp.UdpClient.Send.{send_async, run_send, begin_send, finish_send}
use kernel_udp_tcp.UdpClient.Failure.{Disconnected, reported, gone, error-gone}

module _ {Socket : Type 0} (asio : Asio Socket) where
  -- The client after a datagram of m bytes to e went out asynchronously.
  abbrev pub Delivered : Endpoint → ℕ → UdpClient Socket → UdpClient Socket → Type 0
  Delivered e m s u =
      (u.connected ≡ true)
      × (u.sending ≡ false)
      × (u.bytes_sending ≡ 0)
      × (u.send_buffer ≡ [])
      × (u.bytes_sent ≡ add64 s.bytes_sent m)
      × (u.datagrams_sent ≡ s.datagrams_sent)
      × (u.calls ≡ on_sent e m ∷ s.calls)

  -- A failed send ends the connection.
  run_send-Disconnected :
      (x : ErrorCode) (m : ℕ) (s : UdpClient Socket)
      → s.connected ≡ true
      → (asio.close (asio.cancel s.socket).0).1 ≡ none
      → run_send asio no_overrides (some x) m s
        ≡ ok tt (
            gone asio (
              cancelled asio no_overrides
                (record s { sending = false; calls = reported x s.calls })))
  unfolding run_send finish_send
  run_send-Disconnected x m s on closes =
      if-not _ _ on ∙ error-gone asio x (record s { sending = false }) on closes

  -- On a connected client with no send under way, SendAsync of n > 0 bytes within the limit, or
  -- with no limit, returns true, hands those bytes to asio as the newest operation, and buffers
  -- them. Its handler has two ends. With m > 0 bytes sent SendAsync is free again, nothing is
  -- buffered, the m bytes are counted, the datagram is not, and onSent is called with the endpoint.
  -- With an error the error is reported and the client is disconnected, and the datagram stays
  -- buffered. The socket closes without an error, and the virtual methods are the empty ones.
  pub client_send_async_lem :
      (e : Endpoint) (b : Bytes) (n m : ℕ) (x : ErrorCode) (s : UdpClient Socket)
      → s.connected ≡ true
      → s.sending ≡ false
      → 0 < n
      → (s.send_buffer_limit ≡ 0) ⊎ (n ≤ s.send_buffer_limit)
      → 0 < m
      → (asio.close (asio.cancel s.socket).0).1 ≡ none
      → (t : UdpClient Socket) × (send_async asio no_overrides e (some b) n s ≡ ok true t)
        × (t.pending ≡ s.pending ++ (executor s.strand_required, async_send_to (take n b) e) ∷ [])
        × (t.bytes_sending ≡ length (take n b))
        × ((u : UdpClient Socket) × (run_send asio no_overrides none m
                (record t { pending = s.pending })
              ≡ ok tt u)
            × Delivered e m s u)
        × (v : UdpClient Socket) × (run_send asio no_overrides
              (some x)
              m
              (record t { pending = s.pending })
            ≡ ok tt v)
        × Disconnected (reported x s.calls) t v
  unfolding send_async run_send
  client_send_async_lem e b n m x s on free some_bytes limit moved closes =
      let t = begin_send asio no_overrides e (take n b) s in
      let t' : UdpClient Socket = record t { pending = s.pending } in
      (
        t,
        ground arith,
        refl,
        refl,
        (state (run_send asio no_overrides none m t'), ground arith, ground arith),
        gone asio (
            cancelled asio no_overrides
              (record t' { sending = false; calls = reported x s.calls })),
        run_send-Disconnected x m t' on closes,
        (refl, refl, refl, refl, refl, refl, refl),
      )
