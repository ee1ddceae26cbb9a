-- ===== src/Ip/V4/Bytes.antt =====
-- An address of version 4 as a number in host byte order and as its bytes in network byte order.
use senders_io.Prelude.{ℕ, zero, suc, ◌^◌, ◌<◌, ◌≡◌, refl, [], ◌∷◌, arith}
use senders_io.Ip.{byte, word_of}
use senders_io.Ip.V4.{from_uint, from_bytes, to_uint, to_bytes}

-- four bytes and the number that they are
pub byte-word_of :
    (a b c d : ℕ)
    → a < 256
    → b < 256
    → c < 256
    → d < 256
    → (byte (word_of a b c d) 0 ≡ a)
      × (byte (word_of a b c d) 1 ≡ b)
      × (byte (word_of a b c d) 2 ≡ c)
      × (byte (word_of a b c d) 3 ≡ d)
byte-word_of a b c d p q r s = (omega arith, omega arith, omega arith, omega arith)

pub word_of-byte : (n : ℕ) → n < 2 ^ 32 → word_of (byte n 0) (byte n 1) (byte n 2) (byte n 3) ≡ n
word_of-byte n h = omega arith

byte_lt : (n i : ℕ) → byte n i < 256
byte_lt n zero = omega arith
byte_lt n (suc i) = omega arith

-- A number of 32 bits is read back from the address that is made of it, whose bytes are those of the
-- number from the highest one on, and the same address is made of these bytes.
pub from_uint-bytes :
    (n : ℕ)
    → n < 2 ^ 32
    → (to_uint (from_uint n) ≡ n)
      × (to_bytes (from_uint n) ≡ byte n 3 ∷ byte n 2 ∷ byte n 1 ∷ byte n 0 ∷ [])
      × (from_bytes (byte n 3) (byte n 2) (byte n 1) (byte n 0) ≡ from_uint n)
unfolding to_uint from_uint to_bytes from_bytes
from_uint-bytes n h =
    let (e0, e1, e2, e3) =
      byte-word_of (byte n 3) (byte n 2) (byte n 1) (byte n 0) (byte_lt n 3) (byte_lt n 2)
        (byte_lt n 1) (byte_lt n 0) in
    (omega (arith, e0, e1, e2, e3, word_of-byte n h), rw (e0, e1, e2, e3) refl, refl)
