-- ===== src/UdpServer.antt =====
-- UDPServer (include/server/asio/udp_server.h, source/server/asio/udp_server.cpp): the state of the
-- object, what asio holds for it, and the helpers that the handlers share. The methods stand in the
-- child modules.
pub mod Lifecycle
pub mod Send
pub mod Receive
pub mod Step
pub mod Invariant
pub mod Preserve
pub mod Reach
pub mod Stuck
pub mod Success
pub mod Restart
pub mod Growth
pub mod Delivery
use kernel_udp_tcp.Prelude.{
  ℕ, ◌+◌, ◌-◌, ◌%◌, ◌^◌, ◌<◌, Bool, true, false, List, [], ◌∷◌, ◌++◌, Option, none, some, take,
  length, replicate, if◌then◌else◌,
}
pub use kernel_udp_tcp.Asio.{Executor, strand, io_service, executor, add64, unsigned_short, resize}
use kernel_udp_tcp.Asio.{
  Asio, Endpoint, ErrorCode, InternetProtocol, SocketOption, Text, Bytes, is_reported,
}
use kernel_udp_tcp.Asio.Action.{Act, ok, throw, modify, when}

-- What asio holds for the object: posted handlers, and operations under way with their buffer.
pub data Task : Type 0 where
  start_handler stop_handler : Task
  async_send_to : Bytes → Endpoint → Task
  async_receive_from : ℕ → Task

-- The virtual methods of the class, with what they are called with.
pub data Callback : Type 0 where
  on_started on_stopped : Callback
  on_received : Endpoint → Bytes → Callback
  on_sent : Endpoint → ℕ → Callback
  on_error : ErrorCode → Callback

-- The fields of the class; `pending` is what asio holds, oldest first, and `calls` the virtual
-- methods called so far, newest first.
pub record UdpServer (Socket : Type 0) : Type 0 where
  pub id : Bytes
  pub strand_required : Bool
  pub address : Text
  pub port : ℕ
  pub endpoint : Endpoint
  pub socket : Socket
  pub started : Bool
  pub bytes_sending : ℕ
  pub bytes_sent : ℕ
  pub bytes_received : ℕ
  pub datagrams_sent : ℕ
  pub datagrams_received : ℕ
  pub multicast_endpoint : Endpoint
  pub receive_endpoint : Endpoint
  pub send_endpoint : Endpoint
  pub receiving : Bool
  pub receive_buffer_limit : ℕ
  pub receive_buffer : Bytes
  pub sending : Bool
  pub send_buffer_limit : ℕ
  pub send_buffer : Bytes
  pub option_reuse_address : Bool
  pub option_reuse_port : Bool
  pub pending : List (Executor × Task)
  pub calls : List Callback

-- A call of asio on the socket, without an error_code argument: it throws its error.
abbrev pub on_socket :
    {Socket : Type 0} → (Socket → Socket × Option ErrorCode) → Act (UdpServer Socket) (Unit {0})
on_socket f s =
    let r = f s.socket in
    elim (r.1) [
      | none ↦ ok tt (record s { socket = r.0 })
      | some e ↦ throw e (record s { socket = r.0 })
    ]

-- The post of a handler, and the start of an operation, on the executor that the service asks for.
abbrev pub submit : {Socket : Type 0} → Task → UdpServer Socket → UdpServer Socket
submit t s = record s { pending = s.pending ++ (executor s.strand_required, t) ∷ [] }

-- What a class derived from UDPServer does in the virtual methods.
abbrev pub Overrides : Type 0 → Type 0
Overrides Socket = Callback → Act (UdpServer Socket) (Unit {0})

-- The class itself: every virtual method is empty.
abbrev pub no_overrides : {Socket : Type 0} → Overrides Socket
no_overrides c s = ok tt s

abbrev pub call_back :
    {Socket : Type 0} → Overrides Socket → Callback → Act (UdpServer Socket) (Unit {0})
call_back on c s = on c (record s { calls = c ∷ s.calls })

-- SendError
abbrev pub send_error :
    {Socket : Type 0} → Overrides Socket → ErrorCode → Act (UdpServer Socket) (Unit {0})
send_error on e = when (is_reported e) (call_back on (on_error e))

-- ClearBuffers
abbrev pub clear_buffers : {Socket : Type 0} → UdpServer Socket → UdpServer Socket
clear_buffers s = record s { send_buffer = []; bytes_sending = 0 }

-- The constructors, from the id that UUID::Sequential made and the service's IsStrandRequired. The
-- one that takes an endpoint leaves the two options uninitialised: their values are arguments.
module _ {Socket : Type 0} (asio : Asio Socket) (id : Bytes) (strand_required : Bool)
    (socket : Socket) (unset : Endpoint) where
  abbrev pub created : Text → ℕ → Endpoint → Bool → Bool → UdpServer Socket
  created address port endpoint reuse_address reuse_port = record {
    id = id;
    strand_required = strand_required;
    address = address;
    port = port;
    endpoint = endpoint;
    socket = socket;
    started = false;
    bytes_sending = 0;
    bytes_sent = 0;
    bytes_received = 0;
    datagrams_sent = 0;
    datagrams_received = 0;
    multicast_endpoint = unset;
    receive_endpoint = unset;
    send_endpoint = unset;
    receiving = false;
    receive_buffer_limit = 0;
    receive_buffer = [];
    sending = false;
    send_buffer_limit = 0;
    send_buffer = [];
    option_reuse_address = reuse_address;
    option_reuse_port = reuse_port;
    pending = [];
    calls = [];
  }

  -- UDPServer(service, port, protocol)
  unfoldable pub of_port : ℕ → InternetProtocol → UdpServer Socket
  of_port port protocol =
      created [] port
        (record {
          protocol = protocol;
          address = asio.any_address protocol;
          port = unsigned_short port;
        })
        false false

  -- UDPServer(service, address, port); `none` where make_address throws.
  unfoldable pub of_address : Text → ℕ → Option (UdpServer Socket)
  of_address address port = elim (asio.make_address address) [
    | none ↦ none
    | some (protocol, host) ↦ some (
        created address port
          (record { protocol = protocol; address = host; port = unsigned_short port }) false false)
  ]

  -- UDPServer(service, endpoint)
  unfoldable pub of_endpoint : Endpoint → Bool → Bool → UdpServer Socket
  of_endpoint endpoint reuse_address reuse_port =
      created endpoint.address endpoint.port endpoint reuse_address reuse_port
