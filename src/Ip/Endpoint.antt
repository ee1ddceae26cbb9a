-- ===== src/Ip/Endpoint.antt =====
-- The class endpoint of source/sio/ip/endpoint.hpp: the union of socket addresses is a data type of
-- the two that the constructors write. sin6_scope_id stays what `data_{}` makes it, zero.
pub mod RoundTrip
use senders_io.Prelude.{ℕ, Bool, true, false, not, ◌&&◌, List, ltb, ◌==◌, if◌then◌else◌, replicate}
use senders_io.Ip.{swap_short, byte}
use senders_io.Ip.V4
use senders_io.Ip.V4.{AddressV4, address_v4}
use senders_io.Ip.V6
use senders_io.Ip.V6.{AddressV6, address_v6}
use senders_io.Ip.Address
use senders_io.Ip.Address.{Address, v4, v6}

-- the port in network byte order, and the address
pub data Endpoint : Type 0 where
  sockaddr_in : ℕ → AddressV4 → Endpoint
  sockaddr_in6 : ℕ → List ℕ → Endpoint

-- the constructor from an address and a port
unfoldable pub from_address : Address → ℕ → Endpoint
from_address (v4 a) port = sockaddr_in (swap_short port) a
from_address (v6 a) port = sockaddr_in6 (swap_short port) a.bytes

-- the constructor from a family, for AF_INET (true) and AF_INET6 (false)
unfoldable pub from_family : Bool → ℕ → Endpoint
from_family true port = sockaddr_in (swap_short port) (address_v4 0)
from_family false port = sockaddr_in6 (swap_short port) (replicate 16 0)

unfoldable pub is_v4 : Endpoint → Bool
is_v4 (sockaddr_in port a) = true
is_v4 (sockaddr_in6 port bytes) = false

unfoldable pub port : Endpoint → ℕ
port (sockaddr_in p a) = swap_short p
port (sockaddr_in6 p bytes) = swap_short p

unfoldable pub address : Endpoint → Address
address (sockaddr_in p a) = v4 a
address (sockaddr_in6 p bytes) = v6 (address_v6 bytes 0)

-- sizeof(sockaddr_in) and sizeof(sockaddr_in6)
unfoldable pub size : Endpoint → ℕ
unfolding is_v4
size e = if is_v4 e then 16 else 28

unfoldable pub eq : Endpoint → Endpoint → Bool
unfolding Address.eq address port
eq e1 e2 = Address.eq (address e1) (address e2) && (port e1 == port e2)

unfoldable pub lt : Endpoint → Endpoint → Bool
unfolding Address.lt Address.eq address port
lt e1 e2 =
    if Address.lt (address e1) (address e2)
    then true
    else if not (Address.eq (address e1) (address e2))
    then false
    else ltb (port e1) (port e2)
