-- ===== src/Ip/Resolve/Tests.antt =====
-- Runs of the resolver, and of what is proved of it.
use senders_io.Prelude.{ℕ, ◌≡◌, refl, ◌↔◌, false, some, [], ◌∷◌, arith}
use senders_io.Ip.{swap_short, byte}
use senders_io.Ip.Protocol.{tcp_v4, of_tcp, tcp_eq, tcp_v6}
use senders_io.Ip.V4.{address_v4}
use senders_io.Ip.Address.{v4}
use senders_io.Ip.Endpoint.{from_address, port, address}
use senders_io.Ip.Resolve.{
  query_protocol_host, address_configured, AddrInfo, inet, ResolverResult, make_result, Operation,
  goes_on, success, notify, flags_or, passive,
}
use senders_io.Ip.Resolve.Walk.{make_results, finish, last_answer, show_all, shown, notify-walks}
use senders_io.Ip.Resolve.Port.{socket_address, resolved_port_is_swapped}
use senders_io.Ip.V6.{address_v6}
use senders_io.Ip.Address.{Address, v6}

flags_run : flags_or passive address_configured ≡ 0x21
unfolding flags_or
flags_run = refl

tcp_run : tcp_eq tcp_v4 tcp_v6 ≡ false
unfolding tcp_eq
tcp_run = refl

abbrev fresh : Operation
unfolding query_protocol_host
fresh = record {
  query = query_protocol_host (of_tcp tcp_v4) (1 ∷ []) (2 ∷ []) address_configured;
  items = [];
  frees = 0;
  completions = [];
}

abbrev info : ℕ → AddrInfo
info p = record { ai_addr = inet p (address_v4 0x0100007f); ai_addrlen = 16 }

abbrev shown_as : ℕ → ResolverResult
unfolding from_address
shown_as p = record {
  host_name = 1 ∷ [];
  service_name = 2 ∷ [];
  endpoint = from_address (v4 (address_v4 0x0100007f)) p;
}

notify-walks_example :
    notify (λ r. goes_on) success (info 80 ∷ info 443 ∷ []) fresh
    ≡ some (
        finish
          (last_answer (λ r. goes_on) (shown_as 80 ∷ shown_as 443 ∷ []))
          (show_all fresh (shown (λ r. goes_on) (shown_as 80 ∷ shown_as 443 ∷ []))))
unfolding make_results make_result from_address query_protocol_host
notify-walks_example =
    notify-walks (λ r. goes_on) (info 80) (info 443 ∷ []) fresh (shown_as 80 ∷ shown_as 443 ∷ [])
      refl

abbrev loopback : Address
loopback = v6 (address_v6 (0 ∷ 0 ∷ 0 ∷ 0 ∷ 0 ∷ 0 ∷ 0 ∷ 0 ∷ 0 ∷ 0 ∷ 0 ∷ 0 ∷ 0 ∷ 0 ∷ 0 ∷ 1 ∷ []) 0)

resolved_port_is_swapped_example :
    (r : ResolverResult) × (make_result
        (record { ai_addr = socket_address loopback 80; ai_addrlen = 28 })
        []
        []
      ≡ some r)
    × (address r.endpoint ≡ loopback)
    × (port r.endpoint ≡ swap_short 80)
    × ((port r.endpoint ≡ 80) ↔ (byte 80 0 ≡ byte 80 1))
resolved_port_is_swapped_example = resolved_port_is_swapped 80 28 loopback [] [] (omega arith) refl
