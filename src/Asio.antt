-- ===== src/Asio.antt =====
-- What the wrapper takes from asio: error codes, endpoints, and the calls that it makes of a UDP
-- socket (include/server/asio/asio.h and the calls of source/server/asio/*.cpp). asio itself is a
-- parameter, `Asio`; only the states of its socket that a law names are looked into.
pub mod Action
pub mod Race
pub mod Pending
pub mod Buffers
pub mod Success
pub use kernel_udp_tcp.Prelude.{Text}
use kernel_udp_tcp.Prelude.{
  bytes_of, ℕ, ◌+◌, ◌-◌, ◌%◌, ◌^◌, ◌++◌, take, replicate, if◌then◌else◌, ◌⊎◌, ◌≤◌, ◌≡◌, Bool, true,
  false, not, ◌||◌, List, Option, none, some, length,
}

pub data InternetProtocol : Type 0 where
  ipv4 ipv6 : InternetProtocol

-- operator<< of a protocol; a number outside of the enumeration is left out.
unfoldable protocol_text : InternetProtocol → Text
protocol_text ipv4 = bytes_of "IPv4"
protocol_text ipv6 = bytes_of "IPv6"

-- std::error_code: the values that the source names, and any other.
pub data ErrorCode : Type 0 where
  connection_aborted connection_refused connection_reset eof operation_aborted : ErrorCode
  timed_out no_buffer_space not_connected already_open invalid_argument : ErrorCode
  other : ℕ → ErrorCode

abbrev pub Bytes : Type 0
Bytes = List ℕ

pub record Endpoint : Type 0 where
  pub protocol : InternetProtocol
  pub address : Text
  pub port : ℕ

pub data SocketOption : Type 0 where
  reuse_address reuse_port : Bool → SocketOption
  receive_buffer_size send_buffer_size : ℕ → SocketOption
  join_group leave_group : Text → SocketOption

-- The calls, and std::to_string of an int. A call with a side effect gives the socket after it;
-- `none` is success.
pub record Asio (Socket : Type 0) : Type 0 where
  pub make_address : Text → Option (InternetProtocol × Text)
  pub any_address : InternetProtocol → Text
  pub open_socket : InternetProtocol → Socket → Socket × Option ErrorCode
  pub set_option : SocketOption → Socket → Socket × Option ErrorCode
  pub bind : Endpoint → Socket → Socket × Option ErrorCode
  pub close : Socket → Socket × Option ErrorCode
  pub cancel : Socket → Socket × Option ErrorCode
  pub get_receive_buffer_size : Socket → ℕ × Option ErrorCode
  pub get_send_buffer_size : Socket → ℕ × Option ErrorCode
  pub send_to : Bytes → Endpoint → Socket → Socket × ℕ × Option ErrorCode
  pub receive_from : ℕ → Socket → Socket × Endpoint × Bytes × Option ErrorCode
  pub resolve : Text → Text → ErrorCode ⊎ Endpoint
  pub to_string : ℕ → Text

-- Where a handler runs: through the strand, or straight on the io_service.
pub data Executor : Type 0 where
  strand io_service : Executor

abbrev pub executor : Bool → Executor
executor required = if required then strand else io_service

-- uint64_t arithmetic wraps.
abbrev pub add64 : ℕ → ℕ → ℕ
add64 a b = (a + b) % 2 ^ 64

-- (unsigned short)port, of an int given by its 32-bit pattern.
abbrev pub unsigned_short : ℕ → ℕ
unsigned_short port = port % 2 ^ 16

-- std::vector::resize
abbrev pub resize : ℕ → Bytes → Bytes
resize n b = take n b ++ replicate (n - length b) 0

-- Whether SendError passes an error on to onError.
abbrev pub is_reported : ErrorCode → Bool
is_reported connection_aborted = false
is_reported connection_refused = false
is_reported connection_reset = false
is_reported eof = false
is_reported operation_aborted = false
is_reported _ = true

abbrev is_timed_out : ErrorCode → Bool
is_timed_out timed_out = true
is_timed_out _ = false

-- `if (error && (error != asio::error::timed_out))`
abbrev pub failed : Option ErrorCode → Bool
failed none = false
failed (some e) = not (is_timed_out e)

-- The documented behaviour of open sockets: what opens a socket leaves it open, opening it again
-- is refused, and neither an option nor a bind closes it.
pub record OpenLaws {Socket : Type 0} (asio : Asio Socket) (IsOpen : Socket → Type 0) : Type 0 where
  pub opens :
      (p : InternetProtocol) (k : Socket)
      → (asio.open_socket p k).1 ≡ none
      → IsOpen (asio.open_socket p k).0
  pub refuses :
      (p : InternetProtocol) (k : Socket) → IsOpen k → asio.open_socket p k ≡ (k, some already_open)
  pub option_keeps : (o : SocketOption) (k : Socket) → IsOpen k → IsOpen (asio.set_option o k).0
  pub bind_keeps : (e : Endpoint) (k : Socket) → IsOpen k → IsOpen (asio.bind e k).0
