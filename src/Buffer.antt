-- ===== src/Buffer.antt =====
-- source/sio/const_buffer.hpp, and its twin source/sio/mutable_buffer.hpp, which differs in the
-- constness of the pointer only. A buffer is a pointer to bytes, seen as an address, and a size.
pub mod Content
pub mod Mutable
pub mod Tests
use senders_io.Prelude.{ℕ, ◌+◌, ◌-◌, Bool, leb, ◌==◌, if◌then◌else◌}

pub record Buffer : Type 0 where
  pub data_ptr : ℕ
  pub size : ℕ

abbrev pub buffer : ℕ → ℕ → Buffer
buffer p n = record { data_ptr = p; size = n }

unfoldable pub empty : Buffer → Bool
empty b = b.size == 0

-- operator+=, which both overloads of operator+ call on a copy
unfoldable pub advance_by : Buffer → ℕ → Buffer
advance_by b n =
    if leb b.size n then buffer (b.data_ptr + b.size) 0 else buffer (b.data_ptr + n) (b.size - n)

-- operator+(buffer, n)
unfoldable pub plus : Buffer → ℕ → Buffer
unfolding advance_by
plus b n = advance_by b n

unfoldable pub prefix : Buffer → ℕ → Buffer
prefix b n = if leb b.size n then b else buffer b.data_ptr n

unfoldable pub suffix : Buffer → ℕ → Buffer
suffix b n = if leb b.size n then b else buffer (b.data_ptr + b.size - n) n
