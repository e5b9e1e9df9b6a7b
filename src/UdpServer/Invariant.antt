-- ===== src/UdpServer/Invariant.antt =====
-- The well-formedness of a UDPServer, and that the virtual methods called in it keep it.
use kernel_udp_tcp.Prelude.{
  ℕ, ◌^◌, ◌<◌, ◌≡◌, refl, Bool, true, false, List, [], ◌∷◌, Option, none, some, length, arith,
}
use kernel_udp_tcp.Asio.{Endpoint, ErrorCode, is_reported}
pub use kernel_udp_tcp.Asio.Pending.{holds, holds-remove, holds-submit}
use kernel_udp_tcp.Asio.Action.{state, when}
use kernel_udp_tcp.UdpServer.{
  UdpServer, Overrides, Task, async_send_to, async_receive_from, Callback, on_started, on_stopped,
  on_received, on_sent, on_error, call_back, send_error, no_overrides, add64,
}

abbrev pub is_send : Task → Bool
is_send (async_send_to b e) = true
is_send _ = false

abbrev pub is_receive : Task → Bool
is_receive (async_receive_from n) = true
is_receive _ = false

-- The history of virtual calls, newest first, read as a protocol: starts and stops alternate from a
-- start, and datagrams are reported between a start and the next stop only. `some b` is a
-- history that keeps it, and says whether the server is started at its end.
abbrev move : Callback → Bool → Option Bool
move on_started false = some true
move on_stopped true = some false
move (on_received e b) true = some true
move (on_sent e n) true = some true
move (on_error e) b = some b
move _ b = none

abbrev bind_bool : Option Bool → (Bool → Option Bool) → Option Bool
bind_bool none f = none
bind_bool (some b) f = f b

abbrev pub lifecycle : List Callback → Option Bool
lifecycle [] = some false
lifecycle (c ∷ rest) = bind_bool (lifecycle rest) (move c)

-- The bytes that onSent and onReceived reported since the last onStarted, as a uint64_t.
abbrev pub total_sent : List Callback → ℕ
total_sent [] = 0
total_sent (on_started ∷ rest) = 0
total_sent (on_sent e n ∷ rest) = add64 (total_sent rest) n
total_sent (_ ∷ rest) = total_sent rest

abbrev pub total_received : List Callback → ℕ
total_received [] = 0
total_received (on_started ∷ rest) = 0
total_received (on_received e bytes ∷ rest) = add64 (total_received rest) (length bytes)
total_received (_ ∷ rest) = total_received rest

-- While the server is stopped no flag is set and no datagram is buffered; bytes_pending() is the
-- size of the buffered datagram; a flag that is set has its operation under way; the virtual
-- calls keep the protocol; and the byte counters are the totals that they reported.
pub record Inv {Socket : Type 0} (s : UdpServer Socket) : Type 0 where
  pub idle : s.started ≡ false → (s.receiving ≡ false) × (s.sending ≡ false) × (s.send_buffer ≡ [])
  pub bytes_pending : s.bytes_sending ≡ length s.send_buffer
  pub send_outstanding : s.sending ≡ true → holds is_send s.pending ≡ true
  pub receive_outstanding : s.receiving ≡ true → holds is_receive s.pending ≡ true
  pub protocol : lifecycle s.calls ≡ some s.started
  pub sent : (s.bytes_sent ≡ total_sent s.calls) × (s.bytes_sent < 2 ^ 64)
  pub received : (s.bytes_received ≡ total_received s.calls) × (s.bytes_received < 2 ^ 64)

-- Well-formed, and started or not as given.
pub record Live {Socket : Type 0} (b : Bool) (s : UdpServer Socket) : Type 0 where
  pub inv : Inv s
  pub at : s.started ≡ b

-- What is asked of a derived class: its virtual methods keep the object well-formed, and do not
-- start or stop it on the spot (Start and Stop only post).
pub Keeps : {Socket : Type 0} → Overrides Socket → Type 0
Keeps {Socket} on =
    (c : Callback) (s : UdpServer Socket) (b : Bool) → Live b s → Live b (state (on c s))

pub no_overrides-Keeps : (Socket : Type 0) → Keeps {Socket = Socket} no_overrides
unfolding Keeps
no_overrides-Keeps Socket c s b h = h

module _ {Socket : Type 0} (on : Overrides Socket) (keeps : Keeps on) where
  pub call_back-Live :
      (c : Callback) (s : UdpServer Socket) (b : Bool)
      → Live b (record s { calls = c ∷ s.calls })
      → Live b (state (call_back on c s))
  unfolding Keeps
  call_back-Live c s b h = keeps c _ b h

  pub send_error-Live :
      (e : ErrorCode) (s : UdpServer Socket) (b : Bool)
      → Live b s
      → Live b (state (send_error on e s))
  send_error-Live e s b h = go (is_reported e) refl
    where
      go : (r : Bool) → is_reported e ≡ r → Live b (state (when r (call_back on (on_error e)) s))
      go true q = call_back-Live (on_error e) s b (ground arith)
      go false q = h

  -- onSent with 0, as an asynchronous send that failed reports it.
  pub on_sent-Live :
      (e : Endpoint) (s : UdpServer Socket)
      → Live true s
      → Live true (state (call_back on (on_sent e 0) s))
  on_sent-Live e s h = call_back-Live (on_sent e 0) s true (ground arith)

  pub on_received-Live :
      (e : Endpoint) (s : UdpServer Socket)
      → Live true s
      → Live true (state (call_back on (on_received e []) s))
  on_received-Live e s h = call_back-Live (on_received e []) s true (ground arith)
