-- ===== src/Ip/Address.antt =====
-- The class address of source/sio/ip/address.hpp: an address of either version.
pub mod Order
use senders_io.Prelude.{Bool, true, false, Option, none, some}
use senders_io.Ip.V4
use senders_io.Ip.V4.{AddressV4}
use senders_io.Ip.V6
use senders_io.Ip.V6.{AddressV6}

pub data Address : Type 0 where
  v4 : AddressV4 → Address
  v6 : AddressV6 → Address

unfoldable pub is_v4 : Address → Bool
is_v4 (v4 a) = true
is_v4 (v6 a) = false

unfoldable pub is_v6 : Address → Bool
is_v6 (v4 a) = false
is_v6 (v6 a) = true

-- std::get, which throws on the other version
unfoldable pub to_v4 : Address → Option AddressV4
to_v4 (v4 a) = some a
to_v4 (v6 a) = none

unfoldable pub to_v6 : Address → Option AddressV6
to_v6 (v4 a) = none
to_v6 (v6 a) = some a

unfoldable pub is_loopback : Address → Bool
unfolding V4.is_loopback V6.is_loopback
is_loopback (v4 a) = V4.is_loopback a
is_loopback (v6 a) = V6.is_loopback a

unfoldable pub is_unspecified : Address → Bool
unfolding V4.is_unspecified V6.is_unspecified
is_unspecified (v4 a) = V4.is_unspecified a
is_unspecified (v6 a) = V6.is_unspecified a

unfoldable pub is_multicast : Address → Bool
unfolding V4.is_multicast V6.is_multicast
is_multicast (v4 a) = V4.is_multicast a
is_multicast (v6 a) = V6.is_multicast a

unfoldable pub eq : Address → Address → Bool
unfolding V4.eq V6.eq
eq (v4 a) (v4 b) = V4.eq a b
eq (v4 a) (v6 b) = false
eq (v6 a) (v4 b) = false
eq (v6 a) (v6 b) = V6.eq a b

-- operator<, by the version first
unfoldable pub lt : Address → Address → Bool
unfolding V4.lt V6.lt
lt (v4 a) (v4 b) = V4.lt a b
lt (v4 a) (v6 b) = true
lt (v6 a) (v4 b) = false
lt (v6 a) (v6 b) = V6.lt a b
