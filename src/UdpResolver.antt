-- ===== src/UdpResolver.antt =====
-- UDPResolver (include/server/asio/udp_resolver.h, source/server/asio/udp_resolver.cpp), and the
-- thread that runs the handler of a resolution that UDPClient has started
-- (source/server/asio/udp_client.cpp). The resolver of asio is a parameter.
use kernel_udp_tcp.Prelude.{
  ℕ, ◌+◌, ◌<◌, ◌^◌, ◌≡◌, ◌≢◌, Bool, false, sym, ◌∙◌, arith, if◌then◌else◌, if-false,
}
use kernel_udp_tcp.Service.{Service, get_asio_service}
use kernel_udp_tcp.Service.RoundRobin.{after, handed_out, get_asio_service_cycle}

-- `io_service` is the index of the io_service in the service.
record UdpResolver (Resolver : Type 0) : Type 0 where
  pub io_service : ℕ
  pub strand_required : Bool
  pub resolver : Resolver

-- The constructor, with the resolver that asio makes on an io_service.
unfoldable created : {Resolver : Type 0} → (ℕ → Resolver) → Service → UdpResolver Resolver × Service
unfolding get_asio_service
created make s =
    let r = get_asio_service s in
    (record { io_service = r.0; strand_required = r.1.strand_required; resolver = make r.0 }, r.1)

-- Cancel(), which is also what the destructor does
unfoldable cancel :
    {Resolver : Type 0} → (Resolver → Resolver) → UdpResolver Resolver → UdpResolver Resolver
cancel stop r = record r { resolver = stop r.resolver }

-- The io_service that runs async_resolve_handler of a client: the client's own if a strand is
-- required, and that of the resolver if not.
unfoldable answers_on : {Resolver : Type 0} → (required : Bool) → ℕ → UdpResolver Resolver → ℕ
answers_on required own r = if required then own else r.io_service

-- A client and then a resolver are made on a service without strands that has two io_services or
-- more. The answer of the resolver is then handled on another io_service than the client's, also
-- after a Cancel. The index has not reached 2^64.
answers_on-created :
    {Resolver : Type 0} (make : ℕ → Resolver) (stop : Resolver → Resolver) (s : Service)
    → 1 < s.services
    → s.strand_required ≡ false
    → s.round_robin_index + 1 + s.services < 2 ^ 64
    → let (own, t) = get_asio_service s in
      answers_on t.strand_required own (cancel stop (created make t).0) ≢ own
unfolding answers_on cancel created get_asio_service handed_out after
answers_on-created make stop s many free small e =
    let (own, t) = get_asio_service s in
    (get_asio_service_cycle 0 1 s (omega arith) many small).2
      (sym (if-false own (created make t).0.io_service free) ∙ e)
