-- ===== src/Ip/Resolve/Port.antt =====
-- The port of an endpoint that source/sio/ip/resolve.hpp makes of a socket address.
use senders_io.Prelude.{ℕ, ◌^◌, ◌<◌, ◌≡◌, refl, ◌↔◌, some, List, arith}
use senders_io.Ip.{swap_short, byte}
use senders_io.Ip.V6.{address_v6}
use senders_io.Ip.Address.{Address, v4, v6}
use senders_io.Ip.Endpoint.{from_address, port, address}
use senders_io.Ip.Resolve.{SockAddr, inet, inet6, ResolverResult, make_result}

-- the socket address of an address and a port, the size that is asserted of it, and what is left of the
-- address
abbrev pub socket_address : Address → ℕ → SockAddr
socket_address (v4 a) p = inet (swap_short p) a
socket_address (v6 a) p = inet6 (swap_short p) a.bytes

abbrev pub HasLength : Address → ℕ → Type 0
HasLength (v4 a) len = Unit {0}
HasLength (v6 a) len = len ≡ 28

abbrev pub without_scope : Address → Address
without_scope (v4 a) = v4 a
without_scope (v6 a) = v6 (address_v6 a.bytes 0)

swapped_thrice : (p : ℕ) → p < 2 ^ 16 → swap_short (swap_short (swap_short p)) ≡ swap_short p
swapped_thrice p small = omega arith

swapped_same : (p q : ℕ) → p < 2 ^ 16 → q ≡ swap_short p → (q ≡ p) ↔ (byte p 0 ≡ byte p 1)
swapped_same p q small e = ((λ same. omega (arith, e, same)), (λ same. omega (arith, e, same)))

-- The endpoint that resolver_result makes of a socket address with the port p, of either version and
-- for version 6 with the size that is asserted, has the address (for version 6 with the scope 0), and for
-- its port p with its two bytes swapped, which is p only when the two are the same.
pub resolved_port_is_swapped :
    (p len : ℕ) (a : Address) (host service : List ℕ)
    → p < 2 ^ 16
    → HasLength a len
    → (r : ResolverResult) × (make_result
          (record { ai_addr = socket_address a p; ai_addrlen = len })
          host
          service
        ≡ some r)
      × (address r.endpoint ≡ without_scope a)
      × (port r.endpoint ≡ swap_short p)
      × ((port r.endpoint ≡ p) ↔ (byte p 0 ≡ byte p 1))
unfolding make_result from_address port address
resolved_port_is_swapped p len (v4 a) host service small sized = (
  record {
    host_name = host;
    service_name = service;
    endpoint = from_address (v4 a) (swap_short p);
  },
  refl,
  refl,
  swapped_thrice p small,
  swapped_same p _ small (swapped_thrice p small),
)
resolved_port_is_swapped p len (v6 a) host service small sized = (
  record {
    host_name = host;
    service_name = service;
    endpoint = from_address (v6 (address_v6 a.bytes 0)) (swap_short p);
  },
  rw sized refl,
  refl,
  swapped_thrice p small,
  swapped_same p _ small (swapped_thrice p small),
)
