-- ===== src/MemoryPool/Log2.antt =====
-- The size class of an allocation: log2_64 and memory_pool::allocate of source/sio/memory_pool.cpp.
pub mod Ones
pub mod Class
pub mod Overflow
use Prim.Native.Nat.{bit_or}
use senders_io.Prelude.{
  ℕ, ◌*◌, ◌/◌, ◌%◌, ◌^◌, Option, none, some, List, [], ◌∷◌, ltb, if◌then◌else◌, get_or, add64,
  sub64,
}
use senders_io.MemoryPool.{header_size}

abbrev pub tab64 : List ℕ
tab64 =
    63 ∷ 0 ∷ 58 ∷ 1 ∷ 59 ∷ 47 ∷ 53 ∷ 2 ∷ 60 ∷ 39 ∷ 48 ∷ 27 ∷ 54 ∷ 33 ∷ 42 ∷ 3 ∷ 61 ∷ 51 ∷ 37 ∷ 40
    ∷ 49 ∷ 18 ∷ 28 ∷ 20 ∷ 55 ∷ 30 ∷ 34 ∷ 11 ∷ 43 ∷ 14 ∷ 22 ∷ 4 ∷ 62 ∷ 57 ∷ 46 ∷ 52 ∷ 38 ∷ 26 ∷ 32
    ∷ 41 ∷ 50 ∷ 36 ∷ 17 ∷ 19 ∷ 29 ∷ 10 ∷ 13 ∷ 21 ∷ 56 ∷ 45 ∷ 25 ∷ 31 ∷ 35 ∷ 16 ∷ 9 ∷ 12 ∷ 44 ∷ 24
    ∷ 15 ∷ 8 ∷ 23 ∷ 7 ∷ 6 ∷ 5 ∷ []

-- value |= value >> n
unfoldable pub fold_right : ℕ → ℕ → ℕ
fold_right n value = bit_or value (value / 2 ^ n)

-- the six assignments at the beginning
unfoldable pub fill_right : ℕ → ℕ
unfolding fold_right
fill_right value =
    fold_right 32 (fold_right 16 (fold_right 8 (fold_right 4 (fold_right 2 (fold_right 1 value)))))

unfoldable pub look_up : ℕ → ℕ
look_up value = get_or tab64 (sub64 value (value / 2) * 0x07EDD5E59A4E28C2 % 2 ^ 64 / 2 ^ 58) 0

unfoldable pub log2_64 : ℕ → ℕ
unfolding fill_right look_up
log2_64 value = look_up (fill_right value)

-- memory_pool::allocate: the class of the sender, or the exception
unfoldable pub allocate : ℕ → Option ℕ
unfolding log2_64
allocate size =
    let index = log2_64 (add64 size header_size) in if ltb index 32 then some index else none
