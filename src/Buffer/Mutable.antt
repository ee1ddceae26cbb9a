-- ===== src/Buffer/Mutable.antt =====
-- source/sio/mutable_buffer.hpp, which is const_buffer.hpp over a pointer to non-const bytes.
use senders_io.Prelude.{
  ℕ, ◌+◌, ◌-◌, ◌≡◌, refl, inl, inr, Bool, leb, ◌==◌, if◌then◌else◌, Bool-cases,
}
use senders_io.Buffer.{Buffer, buffer}
use senders_io.Buffer

record MutableBuffer : Type 0 where
  data_ptr : ℕ
  size : ℕ

abbrev mutable_buffer : ℕ → ℕ → MutableBuffer
mutable_buffer p n = record { data_ptr = p; size = n }

unfoldable mutable_empty : MutableBuffer → Bool
mutable_empty b = b.size == 0

-- operator+=
unfoldable mutable_advance_by : MutableBuffer → ℕ → MutableBuffer
mutable_advance_by b n =
    if leb b.size n
    then mutable_buffer (b.data_ptr + b.size) 0
    else mutable_buffer (b.data_ptr + n) (b.size - n)

-- operator+(buffer, n) and operator+(n, buffer)
unfoldable mutable_plus : MutableBuffer → ℕ → MutableBuffer
unfolding mutable_advance_by
mutable_plus b n = mutable_advance_by b n

unfoldable mutable_prefix : MutableBuffer → ℕ → MutableBuffer
mutable_prefix b n = if leb b.size n then b else mutable_buffer b.data_ptr n

unfoldable mutable_suffix : MutableBuffer → ℕ → MutableBuffer
mutable_suffix b n = if leb b.size n then b else mutable_buffer (b.data_ptr + b.size - n) n

-- the same bytes as a const_buffer
abbrev as_const : MutableBuffer → Buffer
as_const b = buffer b.data_ptr b.size

-- The operations of mutable_buffer are those of const_buffer on the same bytes.
agrees :
    (b : MutableBuffer) (n : ℕ)
    → (mutable_empty b ≡ Buffer.empty (as_const b))
      × (as_const (mutable_plus b n) ≡ Buffer.plus (as_const b) n)
      × (as_const (mutable_prefix b n) ≡ Buffer.prefix (as_const b) n)
      × (as_const (mutable_suffix b n) ≡ Buffer.suffix (as_const b) n)
unfolding mutable_empty mutable_plus mutable_prefix mutable_suffix Buffer.empty Buffer.plus
    Buffer.prefix Buffer.suffix
agrees b n = elim (Bool-cases (leb b.size n)) [
  | inl full ↦ rw full (refl, refl, refl, refl)
  | inr part ↦ rw part (refl, refl, refl, refl)
]
