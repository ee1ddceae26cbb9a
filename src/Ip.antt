-- ===== src/Ip.antt =====
-- source/sio/ip/address.hpp and source/sio/ip/endpoint.hpp on a little-endian host: addresses,
-- their tests, conversions, order and hash, and the socket addresses made of them.
pub mod V4
pub mod V6
pub mod Address
pub mod Endpoint
pub mod Protocol
pub mod Resolve
pub mod Tests
use senders_io.Prelude.{ℕ, ◌+◌, ◌*◌, ◌/◌, ◌%◌, ◌^◌}

-- the byte of a number at a place, the lowest one at 0
abbrev pub byte : ℕ → ℕ → ℕ
byte n i = n / 256 ^ i % 256

-- std::bit_cast of four bytes to an integer, and back
abbrev pub word_of : ℕ → ℕ → ℕ → ℕ → ℕ
word_of a b c d = a + 256 * b + 65536 * c + 16777216 * d

-- htonl and ntohl, htons and ntohs
abbrev pub swap_long : ℕ → ℕ
swap_long n = word_of (byte n 3) (byte n 2) (byte n 1) (byte n 0)

abbrev pub swap_short : ℕ → ℕ
swap_short n = byte n 1 + 256 * byte n 0
