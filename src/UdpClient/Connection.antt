-- ===== src/UdpClient/Connection.antt =====
-- Connect, Disconnect, Reconnect and their asynchronous forms, of UDPClient, with the handlers that
-- they post.
use mathlib.Core.Option
use kernel_udp_tcp.Prelude.{
  Bool, true, false, not, ◌||◌, Option, none, some, List, [], ◌∷◌, if◌then◌else◌, ◌⊎◌, inl, inr,
}
use kernel_udp_tcp.Asio.{
  Asio, Endpoint, Text, reuse_address, reuse_port, invalid_argument, ErrorCode, resize,
  unsigned_short,
}
use kernel_udp_tcp.Asio.Action.{Act, Outcome, ok, throw, ◌>>=◌, ◌>>◌, modify, pure, when, skip}
use kernel_udp_tcp.UdpClient.{
  UdpClient, Overrides, connect_handler, resolve_handler, disconnect_handler, async_resolve,
  on_connected, on_disconnected, on_socket, submit, call_back, send_error, is_positive,
}

abbrev pub is_empty : Text → Bool
is_empty [] = true
is_empty (c ∷ rest) = false

module _ {Socket : Type 0} (asio : Asio Socket) (on : Overrides Socket) where
  -- What is bound: the endpoint itself for a multicast client, any port otherwise.
  abbrev pub local_endpoint : UdpClient Socket → Endpoint
  local_endpoint s = if s.option_multicast then s.endpoint else record {
    protocol = s.endpoint.protocol;
    address = asio.any_address s.endpoint.protocol;
    port = 0;
  }

  -- open, the socket options and bind
  unfoldable pub open_and_bind : Act (UdpClient Socket) (Unit {0})
  open_and_bind s =
      (do
        on_socket (asio.open_socket s.endpoint.protocol)
        when s.option_reuse_address (on_socket (asio.set_option (reuse_address true)))
        when s.option_reuse_port (on_socket (asio.set_option (reuse_port true)))
        on_socket (asio.bind (local_endpoint s)))
        s

  -- _receive_buffer.resize(option_receive_buffer_size())
  unfoldable pub size_receive_buffer : Act (UdpClient Socket) (Unit {0})
  size_receive_buffer s =
      let r = asio.get_receive_buffer_size s.socket in
      elim (r.1) [
        | none ↦ ok tt (record s { receive_buffer = resize r.0 s.receive_buffer })
        | some e ↦ throw e s
      ]

  abbrev pub opened : UdpClient Socket → UdpClient Socket
  opened s = record s {
    bytes_sending = 0;
    bytes_sent = 0;
    bytes_received = 0;
    datagrams_sent = 0;
    datagrams_received = 0;
    connected = true;
  }

  -- The part that the forms of Connect share, from `_endpoint` on.
  unfoldable pub connect_to : Endpoint → Act (UdpClient Socket) (Unit {0})
  unfolding open_and_bind size_receive_buffer
  connect_to endpoint s =
      (do open_and_bind; size_receive_buffer; modify opened; call_back on on_connected)
        (record s { endpoint = endpoint })

  -- Connect()
  unfoldable pub connect : Act (UdpClient Socket) Bool
  unfolding connect_to
  connect s =
      if is_empty s.address
      then ok false s
      else if not (is_positive s.port)
      then ok false s
      else if s.connected
      then ok false s
      else elim (asio.make_address s.address) [
        | none ↦ throw invalid_argument s
        | some (protocol, host) ↦
            (do
              connect_to
                  (record { protocol = protocol; address = host; port = unsigned_short s.port })
              pure true)
              s
      ]

  abbrev pub service_of : UdpClient Socket → Text
  service_of s = if is_empty s.scheme then asio.to_string s.port else s.scheme

  -- The end of a resolution that failed.
  unfoldable pub unresolved : ErrorCode → Act (UdpClient Socket) (Unit {0})
  unresolved e = do send_error on e; call_back on on_disconnected

  -- Connect(resolver); `present` says that the resolver is not nullptr.
  unfoldable pub connect_resolved : Bool → Act (UdpClient Socket) Bool
  unfolding connect_to unresolved
  connect_resolved present s =
      if not present
      then ok false s
      else if is_empty s.address
      then ok false s
      else if not (is_positive s.port)
      then ok false s
      else if s.connected
      then ok false s
      else elim (asio.resolve s.address (service_of s)) [
        | inl e ↦ (do unresolved e; pure false) s
        | inr endpoint ↦ (do connect_to endpoint; pure true) s
      ]

  abbrev pub closed : UdpClient Socket → UdpClient Socket
  closed s = record s { resolving = false; connected = false; receiving = false; sending = false }

  -- DisconnectInternal, and Disconnect()
  unfoldable pub disconnect : Act (UdpClient Socket) Bool
  disconnect s =
      if not s.connected
      then ok false s
      else ((do on_socket asio.close; modify closed; call_back on on_disconnected; pure true) s)

  unfoldable pub reconnect : Act (UdpClient Socket) Bool
  unfolding disconnect connect
  reconnect = do done ← disconnect; if done then connect else pure false

  -- ConnectAsync()
  unfoldable pub connect_async : Act (UdpClient Socket) Bool
  connect_async s = if s.connected then ok false s else ok true (submit connect_handler s)

  -- The handler of ConnectAsync() drops the result of Connect().
  unfoldable pub run_connect : Act (UdpClient Socket) (Unit {0})
  unfolding connect
  run_connect = connect >>= λ _. skip

  -- ConnectAsync(resolver)
  unfoldable pub connect_resolved_async : Bool → Act (UdpClient Socket) Bool
  connect_resolved_async present s =
      if not present
      then ok false s
      else if s.connected || s.resolving
      then ok false s
      else ok true (submit resolve_handler s)

  -- Its handler starts the resolution.
  unfoldable pub run_resolve : Act (UdpClient Socket) (Unit {0})
  run_resolve s =
      if s.connected || s.resolving
      then ok tt s
      else ok tt (submit (async_resolve s.address (service_of s)) (record s { resolving = true }))

  -- async_resolve_handler, with the resolver's answer
  unfoldable pub run_resolved : ErrorCode ⊎ Endpoint → Act (UdpClient Socket) (Unit {0})
  unfolding connect_to unresolved
  run_resolved answer s =
      let t = record s { resolving = false } in
      if t.connected || t.resolving
      then ok tt t
      else elim answer [ inl e ↦ unresolved e t | inr endpoint ↦ connect_to endpoint t ]

  abbrev pub cancelled : UdpClient Socket → UdpClient Socket
  cancelled s = record s { socket = (asio.cancel s.socket).0 }

  -- The handler that DisconnectInternalAsync posts drops the result of DisconnectInternal.
  unfoldable pub run_disconnect : Act (UdpClient Socket) (Unit {0})
  unfolding disconnect
  run_disconnect = disconnect >>= λ _. skip

  -- DisconnectInternalAsync(false), which is DisconnectAsync()
  unfoldable pub disconnect_async : Act (UdpClient Socket) Bool
  disconnect_async s =
      if not s.connected then ok false s else ok true (submit disconnect_handler (cancelled s))

  -- DisconnectInternalAsync(true): it is called in handlers only, where a dispatch on the handler's
  -- own executor runs in place.
  unfoldable pub disconnect_dispatched : Act (UdpClient Socket) (Unit {0})
  unfolding run_disconnect
  disconnect_dispatched s = if not s.connected then ok tt s else run_disconnect (cancelled s)

  -- `while (IsConnected()) Yield();`: what the other threads do in each round is an argument, and
  -- `none` means that the rounds ran out with the client still connected.
  unfoldable pub await_disconnected :
      List (UdpClient Socket → UdpClient Socket) → UdpClient Socket → Option (UdpClient Socket)
  await_disconnected [] s = if s.connected then none else some s
  await_disconnected (round ∷ rest) s =
      let later = await_disconnected rest (round s) in if s.connected then later else some s

  unfoldable pub reconnect_async :
      List (UdpClient Socket → UdpClient Socket)
      → UdpClient Socket
      → Option (Outcome (UdpClient Socket) Bool)
  unfolding disconnect_async connect_async await_disconnected
  reconnect_async rounds s = elim (disconnect_async s) [
    | ok true t ↦ Option.map connect_async (await_disconnected rounds t)
    | ok false t ↦ some (ok false t)
    | throw e t ↦ some (throw e t)
  ]
