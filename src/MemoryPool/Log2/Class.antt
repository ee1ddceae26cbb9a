-- ===== src/MemoryPool/Log2/Class.antt =====
-- log2_64 rounds the binary logarithm down, and the class of an allocation is large enough.
use native.Mathlib.Nat.{two-pow-succ}
use senders_io.Prelude.{
  ℕ, zero, suc, ◌+◌, ◌-◌, ◌*◌, ◌/◌, ◌^◌, ◌≤◌, ◌<◌, min, ◌≡◌, refl, sym, ap, ◌∙◌, inl, inr, Bool,
  true, ◌&&◌, none, some, arith, ltb, ◌==◌, if◌then◌else◌, ltb→lt, lt→ltb, Bool-cases, sub64,
  add64_exact,
}
use senders_io.MemoryPool.Log2.{look_up, fold_right, fill_right, log2_64, allocate}
use senders_io.MemoryPool.Log2.Ones.{ones, shr, shr-add, ones_grow}
use senders_io.MemoryPool.{block_size, header_size}

shr-eight : (a : ℕ) → a / 2 ^ 8 ≡ shr 8 a
shr-eight a = omega arith

shr-sixteen : (a : ℕ) → a / 2 ^ 16 ≡ shr 16 a
shr-sixteen a = omega (arith, shr-eight a, shr-eight (shr 8 a)) ∙ sym (shr-add 8 8 a)

shr-thirty_two : (a : ℕ) → a / 2 ^ 32 ≡ shr 32 a
shr-thirty_two a = omega (arith, shr-sixteen a, shr-sixteen (shr 16 a)) ∙ sym (shr-add 16 16 a)

-- the shifts of log2_64
module _ (i j a : ℕ) (top : shr i a ≡ ones j) where
  grow :
      (s i' j' : ℕ)
      → a / 2 ^ s ≡ shr s a
      → min s i ≤ j - (s - i)
      → i - s ≡ i'
      → j + min s i ≡ j'
      → shr i' (fold_right s a) ≡ ones j'
  unfolding fold_right
  grow s i' j' shift enough di dj = rw (← di, ← dj, shift) (ones_grow i j s a top enough)

-- A number whose top digit is the digit k is filled with ones from there on.
fill_right-ones : (v k : ℕ) → k < 64 → shr k v ≡ 1 → fill_right v ≡ ones (k + 1)
unfolding fill_right
fill_right-ones v k lt top = last
  where
    v1 : ℕ
    v1 = fold_right 1 v

    v2 : ℕ
    v2 = fold_right 2 v1

    v4 : ℕ
    v4 = fold_right 4 v2

    v8 : ℕ
    v8 = fold_right 8 v4

    v16 : ℕ
    v16 = fold_right 16 v8

    t1 : shr (k - 1) v1 ≡ ones (min 2 (k + 1))
    t1 =
        grow k 1 v top 1 (k - 1) (min 2 (k + 1)) (omega arith) (omega arith) (omega arith)
          (omega arith)

    t2 : shr (k - 3) v2 ≡ ones (min 4 (k + 1))
    t2 =
        grow (k - 1) (min 2 (k + 1)) v1 t1 2 (k - 3) (min 4 (k + 1)) (omega arith) (omega arith)
          (omega arith) (omega arith)

    t4 : shr (k - 7) v4 ≡ ones (min 8 (k + 1))
    t4 =
        grow (k - 3) (min 4 (k + 1)) v2 t2 4 (k - 7) (min 8 (k + 1)) (omega arith) (omega arith)
          (omega arith) (omega arith)

    t8 : shr (k - 15) v8 ≡ ones (min 16 (k + 1))
    t8 =
        grow (k - 7) (min 8 (k + 1)) v4 t4 8 (k - 15) (min 16 (k + 1)) (shr-eight v4) (omega arith)
          (omega arith) (omega arith)

    t16 : shr (k - 31) v16 ≡ ones (min 32 (k + 1))
    t16 =
        grow (k - 15) (min 16 (k + 1)) v8 t8 16 (k - 31) (min 32 (k + 1)) (shr-sixteen v8)
          (omega arith) (omega arith) (omega arith)

    last : fold_right 32 v16 ≡ ones (k + 1)
    last =
        grow (k - 31) (min 32 (k + 1)) v16 t16 32 0 (k + 1) (shr-thirty_two v16) (omega arith)
          (omega arith) (omega arith)

-- The table, at every number that log2_64 looks up.
agrees_to : ℕ → (ℕ → ℕ) → Bool
agrees_to zero f = true
agrees_to (suc k) f = (f k == k) && agrees_to k f

agrees_at : (n k : ℕ) (f : ℕ → ℕ) → agrees_to n f ≡ true → k < n → f k ≡ k
unfolding agrees_to
agrees_at zero k f h lt = absurd (omega arith)
agrees_at (suc n) k f h lt = ground (arith, agrees_at n k f)

table : agrees_to 64 (λ k. look_up (ones (k + 1))) ≡ true
unfolding agrees_to look_up sub64
table = refl

look_up-ones : (k : ℕ) → k < 64 → look_up (ones (k + 1)) ≡ k
look_up-ones k lt = agrees_at 64 k (λ j. look_up (ones (j + 1))) table lt

twice : (k : ℕ) → 2 ^ suc k ≡ 2 ^ k + 2 ^ k
twice k = two-pow-succ k

suc_at : (k : ℕ) → 2 ^ (k + 1) ≡ 2 ^ suc k
suc_at k = ap (λ j. 2 ^ j) (omega arith)

suc_next : (k : ℕ) → 2 ^ (suc k + 1) ≡ 2 ^ suc (suc k)
suc_next k = suc_at (suc k)

top_digit : (k v : ℕ) → 2 ^ k ≤ v → v < 2 ^ (k + 1) → shr k v ≡ 1
top_digit zero v le lt = omega arith
top_digit (suc k) v le lt =
    top_digit k (v / 2) (omega (arith, twice k))
      (omega (arith, suc_at k, suc_next k, twice (suc k)))

-- For a number of at most 64 bits log2_64 gives the binary logarithm, rounded down.
pub log2_64-floor : (v k : ℕ) → k < 64 → 2 ^ k ≤ v → v < 2 ^ (k + 1) → log2_64 v ≡ k
unfolding log2_64
log2_64-floor v k small le lt =
    ap look_up (fill_right-ones v k small (top_digit k v le lt)) ∙ look_up-ones k small

-- every number from 1 on has a top digit
pub top_digit_of :
    (n v : ℕ) → 1 ≤ v → v < 2 ^ n → (k : ℕ) × (k < n) × (2 ^ k ≤ v) × (v < 2 ^ (k + 1))
top_digit_of zero v le lt = absurd (omega arith)
top_digit_of (suc n) v le lt = elim (Bool-cases (ltb v (2 ^ n))) [
  | inl small ↦
      let (k, kn, lo, hi) = top_digit_of n v le (ltb→lt v (2 ^ n) small) in (k, omega arith, lo, hi)
  | inr large ↦ (n, omega arith, ground (arith, large), omega (arith, suc_at n))
]

-- `allocate` of a size that does not wrap around gives the class i for which the size with its header
-- has the binary logarithm i rounded down, or refuses it if there are not that many classes.
pub allocate_class :
    (size k : ℕ)
    → size + header_size < 2 ^ 64
    → 2 ^ k ≤ size + header_size
    → size + header_size < 2 ^ (k + 1)
    → k < 64
    → allocate size ≡ (if ltb k 32 then some k else none)
unfolding allocate
allocate_class size k word le lt small =
    rw (add64_exact size header_size word, log2_64-floor (size + header_size) k small le lt) refl

-- A size that is below 2^30 together with its header of 16 bytes has a class, and the block of that class holds the
-- object with its header, and is at most twice as large.
pub allocate_fits :
    (size : ℕ)
    → size + header_size < 2 ^ 30
    → (i bytes : ℕ) × (allocate size ≡ some i)
      × (block_size i ≡ some bytes)
      × (size + header_size < bytes)
      × (bytes ≤ 2 * (size + header_size))
unfolding block_size
allocate_fits size small =
    let (k, lt, lo, hi) = top_digit_of 30 (size + header_size) (omega arith) small in
    (
      k,
      2 ^ (k + 1),
      allocate_class size k (omega arith) lo hi (omega arith) ∙ rw (lt→ltb k 32 (omega arith)) refl,
      rw (lt→ltb k 30 lt) refl,
      hi,
      omega (arith, suc_at k, twice k),
    )
