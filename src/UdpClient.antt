-- ===== src/UdpClient.antt =====
-- UDPClient (include/server/asio/udp_client.h, source/server/asio/udp_client.cpp): the state of
-- the object, what asio holds for it, and the helpers that the handlers share. The methods stand in
-- the child modules.
pub mod Connection
pub mod Multicast
pub mod Send
pub mod Receive
pub mod Step
pub mod Invariant
pub mod Preserve
pub mod Reach
pub mod Failure
pub mod Delivery
pub mod Success
pub mod Stuck
use kernel_udp_tcp.Prelude.{
  ℕ, Bool, true, false, List, [], ◌∷◌, ◌++◌, Option, none, some, if◌then◌else◌, ◌&&◌, ltb, ◌^◌,
}
use kernel_udp_tcp.Asio.{
  Asio, Endpoint, ErrorCode, InternetProtocol, Text, Bytes, is_reported, Executor, executor,
}
use kernel_udp_tcp.Asio.Action.{Act, ok, throw, when}

-- What asio holds for the object: posted handlers, and operations under way. connect_handler is the
-- one of ConnectAsync(), resolve_handler that of ConnectAsync(resolver).
pub data Task : Type 0 where
  connect_handler resolve_handler disconnect_handler : Task
  join_handler leave_handler : Text → Task
  async_resolve : Text → Text → Task
  async_send_to : Bytes → Endpoint → Task
  async_receive_from : ℕ → Task

-- The virtual methods of the class, with what they are called with.
pub data Callback : Type 0 where
  on_connected on_disconnected : Callback
  on_joined on_left : Text → Callback
  on_received : Endpoint → Bytes → Callback
  on_sent : Endpoint → ℕ → Callback
  on_error : ErrorCode → Callback

-- The fields of the class; `pending` is what asio holds, oldest first, and `calls` the virtual
-- methods called so far, newest first. `port` is the 32-bit pattern of the int.
pub record UdpClient (Socket : Type 0) : Type 0 where
  pub id : Bytes
  pub strand_required : Bool
  pub address : Text
  pub scheme : Text
  pub port : ℕ
  pub endpoint : Endpoint
  pub socket : Socket
  pub resolving : Bool
  pub connected : Bool
  pub bytes_sending : ℕ
  pub bytes_sent : ℕ
  pub bytes_received : ℕ
  pub datagrams_sent : ℕ
  pub datagrams_received : ℕ
  pub receive_endpoint : Endpoint
  pub send_endpoint : Endpoint
  pub receiving : Bool
  pub receive_buffer_limit : ℕ
  pub receive_buffer : Bytes
  pub sending : Bool
  pub send_buffer_limit : ℕ
  pub send_buffer : Bytes
  pub option_reuse_address : Bool
  pub option_reuse_port : Bool
  pub option_multicast : Bool
  pub pending : List (Executor × Task)
  pub calls : List Callback

-- A call of asio on the socket, without an error_code argument: it throws its error.
abbrev pub on_socket :
    {Socket : Type 0} → (Socket → Socket × Option ErrorCode) → Act (UdpClient Socket) (Unit {0})
on_socket f s =
    let r = f s.socket in
    elim (r.1) [
      | none ↦ ok tt (record s { socket = r.0 })
      | some e ↦ throw e (record s { socket = r.0 })
    ]

-- The post of a handler, and the start of an operation, on the executor that the service asks for.
abbrev pub submit : {Socket : Type 0} → Task → UdpClient Socket → UdpClient Socket
submit t s = record s { pending = s.pending ++ (executor s.strand_required, t) ∷ [] }

-- What a class derived from UDPClient does in the virtual methods that start with `on`.
abbrev pub Overrides : Type 0 → Type 0
Overrides Socket = Callback → Act (UdpClient Socket) (Unit {0})

-- The class itself: every such method is empty.
abbrev pub no_overrides : {Socket : Type 0} → Overrides Socket
no_overrides c s = ok tt s

abbrev pub call_back :
    {Socket : Type 0} → Overrides Socket → Callback → Act (UdpClient Socket) (Unit {0})
call_back on c s = on c (record s { calls = c ∷ s.calls })

-- SendError
abbrev pub send_error :
    {Socket : Type 0} → Overrides Socket → ErrorCode → Act (UdpClient Socket) (Unit {0})
send_error on e = when (is_reported e) (call_back on (on_error e))

-- `_port > 0`, of an int.
abbrev pub is_positive : ℕ → Bool
is_positive port = ltb 0 port && ltb port (2 ^ 31)

-- The constructors, from the id that UUID::Sequential made and the service's IsStrandRequired.
module _ {Socket : Type 0} (id : Bytes) (strand_required : Bool) (socket : Socket)
    (unset : Endpoint) where
  abbrev pub created : Text → Text → ℕ → Endpoint → UdpClient Socket
  created address scheme port endpoint = record {
    id = id;
    strand_required = strand_required;
    address = address;
    scheme = scheme;
    port = port;
    endpoint = endpoint;
    socket = socket;
    resolving = false;
    connected = false;
    bytes_sending = 0;
    bytes_sent = 0;
    bytes_received = 0;
    datagrams_sent = 0;
    datagrams_received = 0;
    receive_endpoint = unset;
    send_endpoint = unset;
    receiving = false;
    receive_buffer_limit = 0;
    receive_buffer = [];
    sending = false;
    send_buffer_limit = 0;
    send_buffer = [];
    option_reuse_address = false;
    option_reuse_port = false;
    option_multicast = false;
    pending = [];
    calls = [];
  }

  -- UDPClient(service, address, port)
  abbrev pub of_address : Text → ℕ → UdpClient Socket
  of_address address port = created address [] port unset

  -- UDPClient(service, address, scheme)
  abbrev pub of_scheme : Text → Text → UdpClient Socket
  of_scheme address scheme = created address scheme 0 unset

  -- UDPClient(service, endpoint)
  abbrev pub of_endpoint : Endpoint → UdpClient Socket
  of_endpoint endpoint = created endpoint.address [] endpoint.port endpoint
