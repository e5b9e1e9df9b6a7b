-- ===== src/UdpClient/Invariant.antt =====
-- The well-formedness of a UDPClient, and that the virtual methods called in it keep it.
use kernel_udp_tcp.Prelude.{
  ℕ, ◌^◌, ◌<◌, ◌≡◌, refl, ◌⊎◌, Bool, true, false, not, List, [], ◌∷◌, Option, none, some, length,
  arith, if◌then◌else◌,
}
use kernel_udp_tcp.Asio.{ErrorCode, is_reported, add64}
use kernel_udp_tcp.Asio.Action.{Outcome, ok, state, when}
pub use kernel_udp_tcp.Asio.Pending.{holds, holds-remove, holds-submit}
use kernel_udp_tcp.UdpClient.{
  UdpClient, Overrides, Task, async_resolve, async_send_to, async_receive_from, Callback,
  on_connected, on_disconnected, on_joined, on_left, on_received, on_sent, on_error, call_back,
  send_error, no_overrides,
}

abbrev pub is_send : Task → Bool
is_send (async_send_to b e) = true
is_send _ = false

abbrev pub is_receive : Task → Bool
is_receive (async_receive_from n) = true
is_receive _ = false

abbrev pub is_resolve : Task → Bool
is_resolve (async_resolve a p) = true
is_resolve _ = false

-- The history of virtual calls, newest first, read as a protocol: a client connects only while it
-- is disconnected; groups and datagrams are reported while it is connected; a disconnection is
-- reported of a connected client, or of a resolution that failed. `some b` is a history that keeps
-- it, and says whether the client is connected at its end.
abbrev move : Callback → Bool → Option Bool
move on_connected false = some true
move on_disconnected b = some false
move (on_joined a) true = some true
move (on_left a) true = some true
move (on_received e b) true = some true
move (on_sent e n) true = some true
move (on_error e) b = some b
move _ b = none

abbrev bind_bool : Option Bool → (Bool → Option Bool) → Option Bool
bind_bool none f = none
bind_bool (some b) f = f b

abbrev pub lifecycle : List Callback → Option Bool
lifecycle [] = some false
lifecycle (c ∷ rest) = bind_bool (lifecycle rest) (move c)

-- The bytes that onSent and onReceived reported since the last onConnected, as a uint64_t.
abbrev pub total_sent : List Callback → ℕ
total_sent [] = 0
total_sent (on_connected ∷ rest) = 0
total_sent (on_sent e n ∷ rest) = add64 (total_sent rest) n
total_sent (_ ∷ rest) = total_sent rest

abbrev pub total_received : List Callback → ℕ
total_received [] = 0
total_received (on_connected ∷ rest) = 0
total_received (on_received e bytes ∷ rest) = add64 (total_received rest) (length bytes)
total_received (_ ∷ rest) = total_received rest

-- While the client is disconnected neither flag is set; bytes_pending() is 0 or the size of the
-- buffered datagram; a flag that is set has its operation under way; the buffers have no limit;
-- the virtual calls keep the protocol; and the byte counters are the totals that they reported.
pub record Inv {Socket : Type 0} (s : UdpClient Socket) : Type 0 where
  pub idle : s.connected ≡ false → (s.receiving ≡ false) × (s.sending ≡ false)
  pub bytes_pending : (s.bytes_sending ≡ 0) ⊎ (s.bytes_sending ≡ length s.send_buffer)
  pub send_outstanding : s.sending ≡ true → holds is_send s.pending ≡ true
  pub receive_outstanding : s.receiving ≡ true → holds is_receive s.pending ≡ true
  pub resolve_outstanding : s.resolving ≡ true → holds is_resolve s.pending ≡ true
  pub unlimited : (s.receive_buffer_limit ≡ 0) × (s.send_buffer_limit ≡ 0)
  pub protocol : lifecycle s.calls ≡ some s.connected
  pub sent : (s.bytes_sent ≡ total_sent s.calls) × (s.bytes_sent < 2 ^ 64)
  pub received : (s.bytes_received ≡ total_received s.calls) × (s.bytes_received < 2 ^ 64)

-- Well-formed, and connected or not as given.
pub record Live {Socket : Type 0} (b : Bool) (s : UdpClient Socket) : Type 0 where
  pub inv : Inv s
  pub at : s.connected ≡ b

-- What is asked of a derived class: its virtual methods keep the object well-formed, and onError
-- neither connects nor disconnects it. The others may.
pub record Keeps {Socket : Type 0} (on : Overrides Socket) : Type 0 where
  pub any : (c : Callback) (s : UdpClient Socket) → Inv s → Inv (state (on c s))
  pub error :
      (e : ErrorCode) (s : UdpClient Socket) (b : Bool)
      → Live b s
      → Live b (state (on (on_error e) s))

pub no_overrides-Keeps : (Socket : Type 0) → Keeps {Socket = Socket} no_overrides
no_overrides-Keeps Socket = record { any = λ c s h. h; error = λ e s b h. h }

-- The guard of a connected client.
pub guarded {ℓ} :
    {Socket : Type 0} {A : Type ℓ} (a : A) (x : Outcome (UdpClient Socket) A) (s : UdpClient Socket)
    → Inv s
    → (Live true s → Inv (state x))
    → Inv (state (if not s.connected then ok a s else x))
guarded {Socket = Socket} {A = A} a x s h f = go s.connected refl
  where
    go : (b : Bool) → s.connected ≡ b → Inv (state (if not b then ok a s else x))
    go true e = f (record { inv = h; at = e })
    go false e = h

module _ {Socket : Type 0} (on : Overrides Socket) (keeps : Keeps on) where
  pub call_back-Inv :
      (c : Callback) (s : UdpClient Socket)
      → Inv (record s { calls = c ∷ s.calls })
      → Inv (state (call_back on c s))
  call_back-Inv c s h = keeps.any c _ h

  pub send_error-Live :
      (e : ErrorCode) (s : UdpClient Socket) (b : Bool)
      → Live b s
      → Live b (state (send_error on e s))
  send_error-Live e s b h = go (is_reported e) refl
    where
      go : (r : Bool) → is_reported e ≡ r → Live b (state (when r (call_back on (on_error e)) s))
      go true q = keeps.error e _ b (ground arith)
      go false q = h

  pub send_error-Inv :
      (e : ErrorCode) (s : UdpClient Socket) → Inv s → Inv (state (send_error on e s))
  send_error-Inv e s h = (send_error-Live e s s.connected (record { inv = h; at = refl })).inv
