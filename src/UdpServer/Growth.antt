-- ===== src/UdpServer/Growth.antt =====
-- The receive buffer of UDPServer: what the handler of an asynchronous receive does to its size.
use kernel_udp_tcp.Prelude.{
  ℕ, ◌*◌, ◌%◌, ◌^◌, ◌≤◌, ◌<◌, ◌≡◌, ◌++◌, Bool, false, ◌&&◌, ◌||◌, Option, none, some, length, drop,
  arith, leb, ◌==◌, if◌then◌else◌,
}
use kernel_udp_tcp.Asio.{Asio, Bytes, Endpoint, ErrorCode}
use kernel_udp_tcp.Asio.Buffers.{length-resize, length-delivered}
use kernel_udp_tcp.Asio.Action.{state}
use kernel_udp_tcp.UdpServer.{UdpServer, no_overrides}
use kernel_udp_tcp.UdpServer.Receive.{grow, run_receive}

-- The datagram has filled a buffer of a started server, and twice the size is within the limit, or
-- there is no limit.
abbrev pub doubles : {Socket : Type 0} → Option ErrorCode → ℕ → UdpServer Socket → Bool
doubles none size s =
    s.started
    && size == length s.receive_buffer
    && (s.receive_buffer_limit == 0 || leb (2 * size) s.receive_buffer_limit)
doubles (some e) size s = false

module _ {Socket : Type 0} (asio : Asio Socket) where
  -- Handling a datagram that fits the buffer doubles the size of the buffer exactly if there was no
  -- error, the server is started, the datagram filled the buffer whole, and twice the size is within
  -- the limit, or there is none; it keeps the size in all other cases. The virtual methods are the
  -- empty ones of the base class, and twice the size is below 2^64.
  pub run_receive-doubles :
      (ec : Option ErrorCode) (e : Endpoint) (bytes : Bytes) (s : UdpServer Socket)
      → length bytes ≤ length s.receive_buffer
      → 2 * length s.receive_buffer < 2 ^ 64
      → length (state (run_receive asio no_overrides ec e bytes s)).receive_buffer ≡ (
          if doubles ec (length bytes) s
          then 2 * length s.receive_buffer
          else length s.receive_buffer)
  unfolding run_receive grow
  run_receive-doubles none e bytes s fits small =
      let buffer : Bytes = bytes ++ drop (length bytes) s.receive_buffer in
      ground (
        arith,
        length-delivered bytes s.receive_buffer fits,
        length-resize (2 * length bytes % 2 ^ 64) buffer,
      )
  run_receive-doubles (some x) e bytes s fits small =
      ground (arith, length-delivered bytes s.receive_buffer fits)
