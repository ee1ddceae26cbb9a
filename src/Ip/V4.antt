-- ===== src/Ip/V4.antt =====
-- The class address_v4 of source/sio/ip/address.hpp.
pub mod Bytes
use Prim.Native.Nat.{bit_and}
use senders_io.Prelude.{ℕ, Bool, List, [], ◌∷◌, ltb, ◌==◌}
use senders_io.Ip.{byte, word_of, swap_long}

-- an in_addr_t, in network byte order
pub record AddressV4 : Type 0 where
  pub addr : ℕ

abbrev pub address_v4 : ℕ → AddressV4
address_v4 n = record { addr = n }

-- the constructor from a number in host byte order
unfoldable pub from_uint : ℕ → AddressV4
from_uint n = address_v4 (swap_long n)

-- the constructor from four bytes
unfoldable pub from_bytes : ℕ → ℕ → ℕ → ℕ → AddressV4
from_bytes a b c d = address_v4 (word_of a b c d)

unfoldable pub to_uint : AddressV4 → ℕ
to_uint a = swap_long a.addr

unfoldable pub to_bytes : AddressV4 → List ℕ
to_bytes a = byte a.addr 0 ∷ byte a.addr 1 ∷ byte a.addr 2 ∷ byte a.addr 3 ∷ []

-- INADDR_LOOPBACK, INADDR_BROADCAST and INADDR_ANY
unfoldable pub loopback : AddressV4
unfolding from_uint
loopback = from_uint 0x7f000001

unfoldable pub broadcast : AddressV4
unfolding from_uint
broadcast = from_uint 0xffffffff

unfoldable pub any : AddressV4
unfolding from_uint
any = from_uint 0

unfoldable pub is_loopback : AddressV4 → Bool
unfolding to_uint
is_loopback a = bit_and (to_uint a) 0xff000000 == 0x7f000000

unfoldable pub is_multicast : AddressV4 → Bool
unfolding to_uint
is_multicast a = bit_and (to_uint a) 0xf0000000 == 0xe0000000

unfoldable pub is_unspecified : AddressV4 → Bool
unfolding to_uint
is_unspecified a = to_uint a == 0

-- the defaulted operator==, and operator<, which compares the number in network byte order
unfoldable pub eq : AddressV4 → AddressV4 → Bool
eq a b = a.addr == b.addr

unfoldable pub lt : AddressV4 → AddressV4 → Bool
lt a b = ltb a.addr b.addr
