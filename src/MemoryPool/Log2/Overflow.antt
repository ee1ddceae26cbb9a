-- ===== src/MemoryPool/Log2/Overflow.antt =====
-- Sizes at which the arithmetic of an allocation overflows.
use senders_io.Prelude.{
  ℕ, zero, suc, ◌+◌, ◌-◌, ◌^◌, ◌≤◌, ◌<◌, ◌≡◌, refl, ◌⊎◌, inl, inr, none, some, arith, ltb, ltb→lt,
  lt→ltb, Bool-cases, add64,
}
use senders_io.MemoryPool.{block_size, header_size}
use senders_io.MemoryPool.Log2.{allocate}
use senders_io.MemoryPool.Log2.Class.{log2_64-floor, allocate_class, top_digit_of}

-- The two largest classes, which `allocate` accepts, have no block size that `1 << (index + 1)`
-- gives: for a size of 2^30 to 2^31 bytes, header included, the block asked for has 2^64 - 2^31
-- bytes, and above, up to 2^32, the shift is undefined.
pub allocate_overflows :
    (size : ℕ)
    → 2 ^ 30 ≤ size + header_size
    → size + header_size < 2 ^ 32
    → (i : ℕ) × (allocate size ≡ some i)
      × ((block_size i ≡ some (2 ^ 64 - 2 ^ 31)) ⊎ (block_size i ≡ none))
unfolding block_size
allocate_overflows size large small = elim (Bool-cases (ltb (size + header_size) (2 ^ 31))) [
  | inl lt ↦ (
    30,
    allocate_class size 30 (omega arith) large (ltb→lt (size + header_size) (2 ^ 31) lt)
        (omega arith),
    inl refl,
  )
  | inr ge ↦
      (31, allocate_class size 31 (omega arith) (ground (arith, ge)) small (omega arith), inr refl)
]

-- For a size that is larger than 2^64 - header the sum with the header wraps around, and `allocate`
-- takes a class whose blocks have at most 16 bytes.
pub allocate_wraps :
    (size : ℕ)
    → size < 2 ^ 64
    → 2 ^ 64 < size + header_size
    → (i bytes : ℕ) × (allocate size ≡ some i) × (block_size i ≡ some bytes) × (bytes ≤ header_size)
unfolding allocate block_size add64
allocate_wraps size word wraps =
    let (k, lt, lo, hi) = top_digit_of 4 (add64 size header_size) (omega arith) (omega arith) in
    (
      k,
      2 ^ (k + 1),
      rw (log2_64-floor (add64 size header_size) k (omega arith) lo hi, lt→ltb k 32 (omega arith))
          refl,
      rw (lt→ltb k 30 (omega arith)) refl,
      small k lt,
    )
  where
    small : (k : ℕ) → k < 4 → 2 ^ (k + 1) ≤ 16
    small zero lt = omega arith
    small (suc zero) lt = omega arith
    small (suc (suc zero)) lt = omega arith
    small (suc (suc (suc zero))) lt = omega arith
    small (suc (suc (suc (suc k)))) lt = absurd (omega arith)
