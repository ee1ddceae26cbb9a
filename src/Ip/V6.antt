-- ===== src/Ip/V6.antt =====
-- The class address_v6 of source/sio/ip/address.hpp, with its 16 bytes as a list, and the addresses
-- that are mapped from version 4.
pub mod Mapped
pub mod Hash
use Prim.Native.Nat.{bit_and, bit_or, bit_xor}
use senders_io.Prelude.{
  ℕ, zero, suc, ◌+◌, ◌*◌, ◌/◌, ◌%◌, ◌^◌, Bool, true, false, ◌&&◌, Option, none, some, List, [], ◌∷◌,
  ◌++◌, ltb, ◌==◌, if◌then◌else◌, set, get_or, replicate,
}
use senders_io.Ip.V4
use senders_io.Ip.V4.{AddressV4, address_v4}

pub record AddressV6 : Type 0 where
  pub bytes : List ℕ
  pub scope_id : ℕ

abbrev pub address_v6 : List ℕ → ℕ → AddressV6
address_v6 bytes scope_id = record { bytes = bytes; scope_id = scope_id }

-- addr_.s6_addr[i]
abbrev pub at : AddressV6 → ℕ → ℕ
at a i = get_or a.bytes i 0

-- the bytes from a place on that are zero, n of them
abbrev pub zeros : AddressV6 → ℕ → ℕ → Bool
zeros a i zero = true
zeros a i (suc n) = (at a i == 0) && zeros a (suc i) n

unfoldable pub any : AddressV6
any = address_v6 (replicate 16 0) 0

unfoldable pub loopback : AddressV6
unfolding any
loopback = record any { bytes = set any.bytes 15 1 }

-- the setter scope_id(id)
unfoldable pub set_scope_id : AddressV6 → ℕ → AddressV6
set_scope_id a id = record a { scope_id = id }

unfoldable pub is_loopback : AddressV6 → Bool
is_loopback a = zeros a 0 15 && (at a 15 == 1)

unfoldable pub is_unspecified : AddressV6 → Bool
is_unspecified a = zeros a 0 16

unfoldable pub is_link_local : AddressV6 → Bool
is_link_local a = (at a 0 == 0xfe) && (bit_and (at a 1) 0xc0 == 0x80)

unfoldable pub is_site_local : AddressV6 → Bool
is_site_local a = (at a 0 == 0xfe) && (bit_and (at a 1) 0xc0 == 0xc0)

unfoldable pub is_v4_mapped : AddressV6 → Bool
is_v4_mapped a = zeros a 0 10 && (at a 10 == 0xff) && (at a 11 == 0xff)

unfoldable pub is_multicast : AddressV6 → Bool
is_multicast a = at a 0 == 0xff

-- the five tests is_multicast_global (0x0e), link_local (0x02), node_local (0x01), org_local (0x08)
-- and site_local (0x05)
unfoldable pub is_multicast_scope : ℕ → AddressV6 → Bool
is_multicast_scope scope a = (at a 0 == 0xff) && (bit_and (at a 1) 0x0f == scope)

-- to_v4, and make_address_v4 of a mapped address; a default address_v4{} is zero
unfoldable pub to_v4 : AddressV6 → AddressV4
unfolding is_v4_mapped V4.from_bytes
to_v4 a =
    if is_v4_mapped a then V4.from_bytes (at a 12) (at a 13) (at a 14) (at a 15) else address_v4 0

-- make_address_v6 of an address of version 4
unfoldable pub from_v4 : AddressV4 → AddressV6
unfolding V4.to_bytes
from_v4 a = address_v6 (replicate 10 0 ++ 0xff ∷ 0xff ∷ V4.to_bytes a) 0

-- the sign of memcmp: none for equal bytes, or whether the first is less
abbrev pub memcmp : List ℕ → List ℕ → Option Bool
memcmp [] ys = none
memcmp (x ∷ xs) [] = none
memcmp (x ∷ xs) (y ∷ ys) = if x == y then memcmp xs ys else some (ltb x y)

-- the scopes decide where the bytes are the same
abbrev pub if_same : Option Bool → Bool → Bool → Bool
if_same none scopes bytes = scopes
if_same (some less) scopes bytes = bytes

unfoldable pub eq : AddressV6 → AddressV6 → Bool
eq a b = if_same (memcmp a.bytes b.bytes) (a.scope_id == b.scope_id) false

abbrev pub less_first : Option Bool → Bool → Bool
less_first none scopes = scopes
less_first (some less) scopes = less

unfoldable pub lt : AddressV6 → AddressV6 → Bool
lt a b = less_first (memcmp a.bytes b.bytes) (ltb a.scope_id b.scope_id)

-- a byte shifted to the left as a std::byte, which has eight bits, by a whole number of bytes
abbrev pub shift_byte : ℕ → ℕ → ℕ
shift_byte b n = b * 2 ^ n % 256

-- combine_4_bytes: the value of the bytes, and the new seed
unfoldable pub bytes_hash : ℕ → ℕ → ℕ → ℕ → ℕ
bytes_hash a b c d = bit_or (bit_or (bit_or (shift_byte a 24) (shift_byte b 16)) (shift_byte c 8)) d

unfoldable pub combine : ℕ → ℕ → ℕ
combine seed hash =
    bit_xor seed ((hash + 0x9e3779b9 + seed * 2 ^ 6 % 2 ^ 64 + seed / 2 ^ 2) % 2 ^ 64)

unfoldable pub combine_4_bytes : AddressV6 → ℕ → ℕ → ℕ
unfolding bytes_hash combine
combine_4_bytes a i seed =
    combine seed (bytes_hash (at a i) (at a (i + 1)) (at a (i + 2)) (at a (i + 3)))

-- std::hash of an address of version 6
unfoldable pub hash : AddressV6 → ℕ
unfolding combine_4_bytes
hash a =
    combine_4_bytes a 12
      (combine_4_bytes a 8 (combine_4_bytes a 4 (combine_4_bytes a 0 a.scope_id)))
