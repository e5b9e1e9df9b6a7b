-- ===== src/UdpClient/Failure.antt =====
-- How the connection of a UDPClient ends on an error, with the base class's virtual methods.
use kernel_udp_tcp.Prelude.{
  if-not, if-false, ℕ, ◌<◌, ◌≡◌, refl, ◌∙◌, Bool, true, false, ◌∷◌, List, none, some, take, arith,
  Bool-cases, inl, inr, ltb, ◌==◌, if◌then◌else◌,
}
use kernel_udp_tcp.Asio.{Asio, Bytes, Endpoint, ErrorCode, is_reported, add64}
use kernel_udp_tcp.Asio.Action.{ok, ◌>>◌, when, ok->>=}
use kernel_udp_tcp.UdpClient.{
  UdpClient, Callback, no_overrides, send_error, call_back, on_error, on_disconnected, on_sent,
}
use kernel_udp_tcp.UdpClient.Connection.{
  closed, cancelled, run_disconnect, disconnect, disconnect_dispatched,
}
use kernel_udp_tcp.UdpClient.Send.{send_to, send_bytes, count_sent, give_up}
use kernel_udp_tcp.UdpClient.Receive.{delivered, finish_receive, run_receive}

-- The virtual calls of an error, newest first.
abbrev pub reported : ErrorCode → List Callback → List Callback
reported e calls = if is_reported e then on_error e ∷ calls else calls

-- Disconnected: every flag is cleared, the newest virtual call is onDisconnected, and the buffered
-- datagram stays, with its size.
abbrev pub Disconnected :
    {Socket : Type 0} → List Callback → UdpClient Socket → UdpClient Socket → Type 0
Disconnected calls s t =
    (t.connected ≡ false)
    × (t.resolving ≡ false)
    × (t.receiving ≡ false)
    × (t.sending ≡ false)
    × (t.calls ≡ on_disconnected ∷ calls)
    × (t.bytes_sending ≡ s.bytes_sending)
    × (t.send_buffer ≡ s.send_buffer)

module _ {Socket : Type 0} (asio : Asio Socket) where
  -- A connected client after its socket closed.
  abbrev pub gone : UdpClient Socket → UdpClient Socket
  gone s = record (closed asio no_overrides (record s { socket = (asio.close s.socket).0 })) {
    calls = on_disconnected ∷ s.calls;
  }

  disconnect-gone :
      (s : UdpClient Socket)
      → s.connected ≡ true
      → (asio.close s.socket).1 ≡ none
      → disconnect asio no_overrides s ≡ ok true (gone s)
  unfolding disconnect
  disconnect-gone s up closes = ground arith

  disconnect_dispatched-gone :
      (s : UdpClient Socket)
      → s.connected ≡ true
      → (asio.close (asio.cancel s.socket).0).1 ≡ none
      → disconnect_dispatched asio no_overrides s ≡ ok tt (gone (cancelled asio no_overrides s))
  unfolding disconnect_dispatched run_disconnect
  disconnect_dispatched-gone s up closes =
      if-not _ _ up
      ∙ ok->>= (disconnect asio no_overrides) _ (cancelled asio no_overrides s)
          (disconnect-gone (cancelled asio no_overrides s) up closes)

  send_error-reported :
      (e : ErrorCode) (s : UdpClient Socket)
      → send_error no_overrides e s ≡ ok tt (record s { calls = reported e s.calls })
  send_error-reported e s = go (is_reported e)
    where
      go :
          (b : Bool)
          → when b (call_back no_overrides (on_error e)) s
            ≡ ok tt (record s { calls = if b then on_error e ∷ s.calls else s.calls })
      go true = refl
      go false = refl

  -- What the handlers of failed operations do.
  pub error-gone :
      (e : ErrorCode) (s : UdpClient Socket)
      → s.connected ≡ true
      → (asio.close (asio.cancel s.socket).0).1 ≡ none
      → (do send_error no_overrides e; disconnect_dispatched asio no_overrides) s
        ≡ ok tt (gone (cancelled asio no_overrides (record s { calls = reported e s.calls })))
  error-gone e s up closes =
      ok->>= (send_error no_overrides e) _ s (send_error-reported e s)
      ∙ disconnect_dispatched-gone (record s { calls = reported e s.calls }) up closes

  give_up-gone :
      (e : ErrorCode) (s : UdpClient Socket)
      → s.connected ≡ true
      → (asio.close s.socket).1 ≡ none
      → give_up asio no_overrides (some e) s
        ≡ ok tt (gone (record s { calls = reported e s.calls }))
  unfolding give_up
  give_up-gone e s up closes =
      let t : UdpClient Socket = record s { calls = reported e s.calls } in
      ok->>= (send_error no_overrides e) _ s (send_error-reported e s)
      ∙ ok->>= (disconnect asio no_overrides) _ t (disconnect-gone t up closes)

  -- Disconnect of a connected client whose socket closes returns true, clears every flag and calls
  -- onDisconnected; the buffered datagram and bytes_pending() stay as they were.
  pub disconnect-Disconnected :
      (s : UdpClient Socket)
      → s.connected ≡ true
      → (asio.close s.socket).1 ≡ none
      → (t : UdpClient Socket) × (disconnect asio no_overrides s ≡ ok true t)
        × Disconnected s.calls s t
  disconnect-Disconnected s up closes =
      (gone s, disconnect-gone s up closes, (refl, refl, refl, refl, refl, refl, refl))

  -- The handler of an asynchronous receive that failed, on a connected client whose socket closes,
  -- reports the error, clears every flag, calls onDisconnected and leaves the client disconnected,
  -- whether or not the flag _receiving is set; the buffered datagram and bytes_pending() stay. The
  -- virtual methods are the empty ones.
  pub run_receive-Disconnected :
      (e : ErrorCode) (from : Endpoint) (bytes : Bytes) (s : UdpClient Socket)
      → s.connected ≡ true
      → (asio.close (asio.cancel s.socket).0).1 ≡ none
      → (t : UdpClient Socket) × (run_receive asio no_overrides (some e) from bytes s ≡ ok tt t)
        × Disconnected (reported e s.calls) s t
  unfolding run_receive finish_receive
  run_receive-Disconnected e from bytes s up closes =
      let u : UdpClient Socket = record (delivered asio no_overrides from bytes s) {
        receiving = false;
      } in
      (
        gone (cancelled asio no_overrides (record u { calls = reported e u.calls })),
        if-not _ _ up ∙ error-gone e u up closes,
        (refl, refl, refl, refl, refl, refl, refl),
      )

  -- What the statistics and onSent leave.
  abbrev counted : Endpoint → ℕ → UdpClient Socket → UdpClient Socket
  counted to out s = record s {
    datagrams_sent = if ltb 0 out then add64 s.datagrams_sent 1 else s.datagrams_sent;
    bytes_sent = if ltb 0 out then add64 s.bytes_sent out else s.bytes_sent;
    calls = if ltb 0 out then on_sent to out ∷ s.calls else s.calls;
  }

  count_sent-counted :
      (to : Endpoint) (out : ℕ) (s : UdpClient Socket)
      → count_sent asio no_overrides to out s ≡ ok tt (counted to out s)
  unfolding count_sent
  count_sent-counted to out s = elim (Bool-cases (ltb 0 out)) [
    | inl went ↦ rw went
    | inr stayed ↦ rw stayed
  ]

  send_bytes-gone :
      (to : Endpoint) (bytes : Bytes) (out : ℕ) (k : Socket) (e : ErrorCode) (s : UdpClient Socket)
      → s.connected ≡ true
      → asio.send_to bytes to s.socket ≡ (k, out, some e)
      → (asio.close k).1 ≡ none
      → let v = counted to out (record s { socket = k }) in
        send_bytes asio no_overrides to bytes s
        ≡ ok out (gone (record v { calls = reported e v.calls }))
  unfolding send_bytes
  send_bytes-gone to bytes out k e s up fails closes =
      let u : UdpClient Socket = record s { socket = k } in
      let v : UdpClient Socket = counted to out u in
      rw fails (
        ok->>= (count_sent asio no_overrides to out) _ u (count_sent-counted to out u)
        ∙ ok->>= (give_up asio no_overrides (some e)) _ v (give_up-gone e v up closes))

  -- Send to an endpoint on a connected client, when asio reports an error and the socket closes,
  -- still returns what went out, counts its bytes and calls onSent if something went out, then
  -- reports the error and disconnects. The virtual methods are the empty ones.
  pub send_to-Disconnected :
      (to : Endpoint) (buffer : Bytes) (size out : ℕ) (k : Socket) (e : ErrorCode)
      (s : UdpClient Socket)
      → s.connected ≡ true
      → 0 < size
      → asio.send_to (take size buffer) to s.socket ≡ (k, out, some e)
      → (asio.close k).1 ≡ none
      → (t : UdpClient Socket) × (send_to asio no_overrides to (some buffer) size s ≡ ok out t)
        × (t.bytes_sent ≡ (if ltb 0 out then add64 s.bytes_sent out else s.bytes_sent))
        × Disconnected (reported e (if ltb 0 out then on_sent to out ∷ s.calls else s.calls)) s t
  unfolding send_to
  send_to-Disconnected to buffer size out k e s up some_bytes fails closes =
      let v : UdpClient Socket = counted to out (record s { socket = k }) in
      (
        gone (record v { calls = reported e v.calls }),
        if-not _ _ up
            ∙ (if-false {b = size == 0} _ _ (ground arith)
                ∙ send_bytes-gone to (take size buffer) out k e s up fails closes),
        refl,
        (refl, refl, refl, refl, refl, refl, refl),
      )
