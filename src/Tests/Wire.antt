-- ===== src/Tests/Wire.antt =====
-- A network that keeps what was sent, and the lines that are typed, for the tests of the programs.
use kernel_udp_tcp.Prelude.{
  ℕ, refl, inr, true, false, List, [], ◌∷◌, ◌++◌, none, some, length, All, arith,
}
use kernel_udp_tcp.Asio.{Asio, ipv4}
use kernel_udp_tcp.UdpServer.{UdpServer, created, on_sent}
use kernel_udp_tcp.UdpServer.Step.{Completion}
use kernel_udp_tcp.Programs.Broadcast.{IsMessage}
use kernel_udp_tcp.Programs.Listening.{Datagram}
use kernel_udp_tcp.Asio.Success.{Succeeds}
use kernel_udp_tcp.Programs.Network.{Sends, datagrams}
use kernel_udp_tcp.Tests.{host}

-- A socket that keeps what it sent, oldest first, and has room for 64 bytes.
abbrev pub wire : Asio (List Datagram)
wire = record {
  make_address = λ a. some (ipv4, a);
  any_address = λ p. [];
  open_socket = λ p k. (k, none);
  set_option = λ o k. (k, none);
  bind = λ e k. (k, none);
  close = λ k. (k, none);
  cancel = λ k. (k, none);
  get_receive_buffer_size = λ k. (64, none);
  get_send_buffer_size = λ k. (64, none);
  send_to = λ b e k. (k ++ (e, b) ∷ [], length b, none);
  receive_from = λ n k. (k, host, [], none);
  resolve = λ a p. inr host;
  to_string = λ n. n ∷ [];
}

pub wire-Sends : Sends wire (λ k. k)
wire-Sends = record { whole = λ b e k. refl; kept = λ b e k. refl }

-- This socket may be opened at any time.
abbrev pub Anyhow : List Datagram → Type 0
Anyhow k = Unit

pub wire-Succeeds : Succeeds wire Anyhow Anyhow 64
wire-Succeeds = record {
  opens = λ p k h. (refl, tt);
  options = λ o k h. (refl, tt);
  binds = λ e k h. (refl, tt);
  sized = λ k h. refl;
  closes = λ k h. (refl, tt);
}

abbrev pub sending : UdpServer (List Datagram)
sending = record (created wire [] true [] host [] 0 host false false) { started = true }

abbrev pub two_lines : List (List ℕ)
two_lines = (104 ∷ 105 ∷ []) ∷ (33 ∷ 33 ∷ []) ∷ []

abbrev pub handled : Completion
handled = record { error = none; moved = 0; endpoint = host; bytes = [] }

pub IsMessage-lines : All IsMessage two_lines
IsMessage-lines = ((omega arith, refl), ((omega arith, refl), tt))

-- The server when the lines have been read.
abbrev pub all_read : UdpServer (List Datagram)
all_read = record sending {
  socket = datagrams host two_lines;
  datagrams_sent = 2;
  bytes_sent = 42;
  calls = on_sent host 21 ∷ on_sent host 21 ∷ [];
}
