-- ===== src/Ip/Endpoint/RoundTrip.antt =====
-- What an endpoint keeps of the address and the port that it is made of.
use senders_io.Prelude.{ℕ, ◌^◌, ◌<◌, ◌≡◌, refl, arith}
use senders_io.Ip.{swap_short}
use senders_io.Ip.V6.{address_v6}
use senders_io.Ip.Address
use senders_io.Ip.Address.{Address, v4, v6}
use senders_io.Ip.Endpoint.{from_address, is_v4, port, address}

-- an address without its scope
abbrev pub unscoped : Address → Address
unscoped (v4 a) = v4 a
unscoped (v6 a) = v6 (address_v6 a.bytes 0)

swap_short-twice : (p : ℕ) → p < 2 ^ 16 → swap_short (swap_short p) ≡ p
swap_short-twice p h = omega arith

-- An endpoint gives back its port, and its address but for the scope of an address of version 6,
-- which becomes 0.
pub from_address-parts :
    (a : Address) (p : ℕ)
    → p < 2 ^ 16
    → (port (from_address a p) ≡ p)
      × (address (from_address a p) ≡ unscoped a)
      × (is_v4 (from_address a p) ≡ Address.is_v4 a)
unfolding from_address port address is_v4 Address.is_v4
from_address-parts (v4 a) p h = (swap_short-twice p h, refl, refl)
from_address-parts (v6 a) p h = (swap_short-twice p h, refl, refl)
