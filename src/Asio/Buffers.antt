-- ===== src/Asio/Buffers.antt =====
-- The sizes of the buffers that asio reads into.
use kernel_udp_tcp.Prelude.{
  ℕ, ◌-◌, ◌≤◌, ◌≡◌, ◌++◌, length, take, drop, replicate, arith, length-append, length-take,
  length-drop, length-replicate,
}
use kernel_udp_tcp.Asio.{Bytes, resize}

pub length-resize : (n : ℕ) (b : Bytes) → length (resize n b) ≡ n
length-resize n b = omega (
  arith,
  length-append (take n b) (replicate (n - length b) 0),
  length-take n b,
  length-replicate {A = ℕ} (n - length b) 0,
)

-- A datagram written over the start of a buffer.
pub length-delivered :
    (bytes buffer : Bytes)
    → length bytes ≤ length buffer
    → length (bytes ++ drop (length bytes) buffer) ≡ length buffer
length-delivered bytes buffer h =
    omega
      (arith, length-append bytes (drop (length bytes) buffer), length-drop (length bytes) buffer)
