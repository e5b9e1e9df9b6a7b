-- ===== src/Asio/Success.antt =====
-- Calls of asio that succeed, as a hypothesis of what the methods then do.
use kernel_udp_tcp.Prelude.{ℕ, ◌≡◌, none}
use kernel_udp_tcp.Asio.{Asio, Endpoint, InternetProtocol, SocketOption}

-- A closed socket can be opened, and an open one takes options, can be bound, knows the size of its
-- receive buffer, and can be closed.
pub record Succeeds {Socket : Type 0} (asio : Asio Socket) (IsClosed IsOpen : Socket → Type 0)
    (room : ℕ) : Type 0 where
  pub opens :
      (p : InternetProtocol) (k : Socket)
      → IsClosed k
      → ((asio.open_socket p k).1 ≡ none) × IsOpen (asio.open_socket p k).0
  pub options :
      (o : SocketOption) (k : Socket)
      → IsOpen k
      → ((asio.set_option o k).1 ≡ none) × IsOpen (asio.set_option o k).0
  pub binds :
      (e : Endpoint) (k : Socket) → IsOpen k → ((asio.bind e k).1 ≡ none) × IsOpen (asio.bind e k).0
  pub sized : (k : Socket) → IsOpen k → asio.get_receive_buffer_size k ≡ (room, none)
  pub closes : (k : Socket) → IsOpen k → ((asio.close k).1 ≡ none) × IsClosed (asio.close k).0
