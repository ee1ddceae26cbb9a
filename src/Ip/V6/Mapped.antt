-- ===== src/Ip/V6/Mapped.antt =====
-- Addresses of version 6 that are mapped from version 4.
use senders_io.Prelude.{◌^◌, ◌<◌, ◌≡◌, refl, ap, true, false, length}
use senders_io.Ip.V4
use senders_io.Ip.V4.{AddressV4, address_v4}
use senders_io.Ip.V4.Bytes.{word_of-byte}
use senders_io.Ip.V6.{is_v4_mapped, is_loopback, is_multicast, to_v4, from_v4}

-- The address of version 6 that an address of version 4 is mapped to is of the mapped kind, has 16
-- bytes, is neither the loopback nor a multicast address, and gives the address back.
pub to_v4-from_v4 :
    (a : AddressV4)
    → a.addr < 2 ^ 32
    → (is_v4_mapped (from_v4 a) ≡ true)
      × (length (from_v4 a).bytes ≡ 16)
      × (is_loopback (from_v4 a) ≡ false)
      × (is_multicast (from_v4 a) ≡ false)
      × (to_v4 (from_v4 a) ≡ a)
unfolding is_v4_mapped from_v4 to_v4 is_loopback is_multicast V4.from_bytes V4.to_bytes
to_v4-from_v4 a h = (refl, refl, refl, refl, ap address_v4 (word_of-byte a.addr h))
