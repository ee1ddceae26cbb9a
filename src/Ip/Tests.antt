-- ===== src/Ip/Tests.antt =====
-- Runs over addresses and endpoints, and of what is proved of them.
use senders_io.Prelude.{◌≢◌, ◌≡◌, refl, ◌⊎◌, true, false, [], ◌∷◌, ◌++◌, arith, length, replicate}
use senders_io.Ip.V4
use senders_io.Ip.V4.{AddressV4, address_v4, from_uint, from_bytes, to_uint, to_bytes}
use senders_io.Ip.V6
use senders_io.Ip.V6.{AddressV6, address_v6, from_v4, hash}
use senders_io.Ip.V6.Mapped.{to_v4-from_v4}
use senders_io.Ip.V6.Hash.{hash_ignores_bytes}
use senders_io.Ip.Address
use senders_io.Ip.Address.{Address, v4, v6, eq, lt}
use senders_io.Ip.Address.Order.{lt_is_total}
use senders_io.Ip.Endpoint
use senders_io.Ip.Endpoint.{from_address}
use senders_io.Ip.Endpoint.RoundTrip.{from_address-parts}

loopback_run : (V4.is_loopback V4.loopback ≡ true) × (V4.is_multicast (from_uint 0xe0000001) ≡ true)
unfolding V4.is_loopback V4.loopback V4.is_multicast from_uint
loopback_run = (refl, refl)

-- the order of addresses of version 4 is that of the numbers in network byte order: on a
-- little-endian host 1.0.0.2 comes after 2.0.0.1
v4_order_run : V4.lt (from_bytes 1 0 0 2) (from_bytes 2 0 0 1) ≡ false
unfolding V4.lt from_bytes
v4_order_run = refl

to_v4-from_v4_example :
    (V6.is_v4_mapped (from_v4 (address_v4 0x0100007f)) ≡ true)
    × (length (from_v4 (address_v4 0x0100007f)).bytes ≡ 16)
    × (V6.is_loopback (from_v4 (address_v4 0x0100007f)) ≡ false)
    × (V6.is_multicast (from_v4 (address_v4 0x0100007f)) ≡ false)
    × (V6.to_v4 (from_v4 (address_v4 0x0100007f)) ≡ address_v4 0x0100007f)
to_v4-from_v4_example = to_v4-from_v4 (address_v4 0x0100007f) (omega arith)

abbrev near : AddressV6
near = address_v6 (0xfe ∷ 0x80 ∷ replicate 13 0 ++ 1 ∷ []) 2

abbrev far : AddressV6
far = address_v6 (0x20 ∷ 0x01 ∷ replicate 13 0 ++ 1 ∷ []) 2

hash_ignores_bytes_example : hash near ≡ hash far
hash_ignores_bytes_example = hash_ignores_bytes near far refl refl refl refl refl

lt_is_total_example :
    (((lt (v6 near) (v6 far) ≡ true) × (lt (v6 far) (v6 near) ≡ false) × (v6 near ≢ v6 far))
      ⊎ ((lt (v6 near) (v6 far) ≡ false)
          × (lt (v6 far) (v6 near) ≡ false)
          × (eq (v6 near) (v6 far) ≡ true)
          × (v6 near ≡ v6 far))
      ⊎ ((lt (v6 far) (v6 near) ≡ true) × (lt (v6 near) (v6 far) ≡ false) × (v6 near ≢ v6 far)))
    × (lt (v6 near) (v6 far) ≡ true
        → lt (v6 far) (v4 (address_v4 1)) ≡ true
        → lt (v6 near) (v4 (address_v4 1)) ≡ true)
lt_is_total_example = lt_is_total (v6 near) (v6 far) (v4 (address_v4 1)) refl refl tt

from_address-parts_example :
    (Endpoint.port (from_address (v6 near) 8080) ≡ 8080)
    × (Endpoint.address (from_address (v6 near) 8080) ≡ v6 (record near { scope_id = 0 }))
    × (Endpoint.is_v4 (from_address (v6 near) 8080) ≡ Address.is_v4 (v6 near))
from_address-parts_example = from_address-parts (v6 near) 8080 (omega arith)
