-- ===== src/Tests.antt =====
-- The data of the tests: a socket that is open or closed, and an asio over it.
mod Uuid
mod Server
mod Service
mod Lifecycle
mod Programs
mod Wire
mod Main
mod Whole
mod Utilities
mod Thread
mod Storage
mod Client
use kernel_udp_tcp.Prelude.{
  ◌≡◌, Bool, true, false, [], ◌∷◌, none, some, length, refl, inr, if◌then◌else◌,
}
use kernel_udp_tcp.Asio.{Asio, OpenLaws, Endpoint, ipv4, already_open, other}
use kernel_udp_tcp.Asio.Success.{Succeeds}
use kernel_udp_tcp.UdpServer.{UdpServer, created}

abbrev pub host : Endpoint
host = record { protocol = ipv4; address = 1 ∷ []; port = 3334 }

-- Everything works but the second open of a socket.
abbrev pub loopback : Asio Bool
loopback = record {
  make_address = λ a. some (ipv4, a);
  any_address = λ p. [];
  open_socket = λ p k. if k then (k, some already_open) else (true, none);
  set_option = λ o k. (k, none);
  bind = λ e k. (k, none);
  close = λ k. (false, none);
  cancel = λ k. (k, none);
  get_receive_buffer_size = λ k. (4, none);
  get_send_buffer_size = λ k. (4, none);
  send_to = λ b e k. (k, length b, none);
  receive_from = λ n k. (k, host, [], none);
  resolve = λ a p. inr host;
  to_string = λ n. n ∷ [];
}

-- The same with every port taken.
abbrev pub crowded : Asio Bool
crowded = record loopback { bind = λ e k. (k, some (other 98)) }

abbrev pub IsOpen : Bool → Type 0
IsOpen k = k ≡ true

crowded-opens :
    (k : Bool) → (crowded.open_socket ipv4 k).1 ≡ none → IsOpen (crowded.open_socket ipv4 k).0
crowded-opens true h = refl
crowded-opens false h = refl

crowded-refuses : (k : Bool) → IsOpen k → crowded.open_socket ipv4 k ≡ (k, some already_open)
crowded-refuses k h = rw h

pub crowded-OpenLaws : OpenLaws crowded IsOpen
crowded-OpenLaws = record {
  opens = λ p k. crowded-opens k;
  refuses = λ p k. crowded-refuses k;
  option_keeps = λ o k h. h;
  bind_keeps = λ e k h. h;
}

abbrev pub fresh : UdpServer Bool
fresh = created loopback [] true false host [] 0 host false false

abbrev pub IsClosed : Bool → Type 0
IsClosed k = k ≡ false

loopback-opens :
    (k : Bool)
    → IsClosed k
    → ((loopback.open_socket ipv4 k).1 ≡ none) × IsOpen (loopback.open_socket ipv4 k).0
loopback-opens k h = rw h (refl, refl)

pub loopback-Succeeds : Succeeds loopback IsClosed IsOpen 4
loopback-Succeeds = record {
  opens = λ p k. loopback-opens k;
  options = λ o k h. (refl, h);
  binds = λ e k h. (refl, h);
  sized = λ k h. refl;
  closes = λ k h. (refl, refl);
}
