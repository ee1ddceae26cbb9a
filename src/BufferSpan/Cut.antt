-- ===== src/BufferSpan/Cut.antt =====
-- The loop of find_buffer_index_for_n finds where the first n bytes of a window end.
use senders_io.Prelude.{
  ℕ, zero, suc, ◌+◌, ◌-◌, ◌≤◌, ◌<◌, ◌≡◌, sym, ap, ◌∙◌, inl, inr, true, false, Option, some, List,
  [], ◌∷◌, arith, leb, Bool-cases, length, take, size_mod, add64_exact, sub64_exact, take-append_le,
  take-append_add,
}
use senders_io.Buffer.{Buffer}
use senders_io.Buffer.Content.{bytes, length-bytes, take-bytes}
use senders_io.BufferSpan.{find_loop}
use senders_io.BufferSpan.Window.{window, IsWindow}
use senders_io.BufferSpan.Size.{length-window_one, length-window_more}

-- The part of a window that ends in its buffer j at offset r holds the first n bytes.
pub record IsCut (bs : List Buffer) (k i0 i_n n j r : ℕ) : Type 0 where
  pub within : j ≤ k
  pub in_bounds : IsWindow bs (suc j) i0 r
  pub bytes_kept : window bs (suc j) i0 r ≡ take n (window bs (suc k) i0 i_n)

take-window_first :
    (b : Buffer) (bs : List Buffer) (k i0 i_n n : ℕ)
    → IsWindow (b ∷ bs) (suc k) i0 i_n
    → n ≤ length (window (b ∷ bs) (suc k) i0 i_n)
    → n ≤ b.size - i0
    → take n (window (b ∷ bs) (suc k) i0 i_n) ≡ bytes (b.data_ptr + i0) n
take-window_first b bs zero i0 i_n n w short fits =
    take-bytes n (b.data_ptr + i0) (i_n - i0) (omega (arith, length-window_one b bs i0 i_n))
take-window_first b bs (suc k) i0 i_n n w short fits =
    take-append_le n (bytes (b.data_ptr + i0) (b.size - i0)) (window bs (suc k) 0 i_n)
      (omega (arith, length-bytes (b.data_ptr + i0) (b.size - i0)))
    ∙ take-bytes n (b.data_ptr + i0) (b.size - i0) fits

-- a cut of the first buffer, at offset m
pub IsCut-first :
    (b : Buffer) (bs : List Buffer) (k i0 i_n n : ℕ) {m : ℕ}
    → IsWindow (b ∷ bs) (suc k) i0 i_n
    → n ≤ length (window (b ∷ bs) (suc k) i0 i_n)
    → n ≤ b.size - i0
    → i0 ≤ b.size
    → b.size < size_mod
    → m ≡ n + i0
    → IsCut (b ∷ bs) k i0 i_n n 0 m
IsCut-first b bs k i0 i_n n {m} w short fits start bounded e = record {
  within = omega arith;
  in_bounds = (omega arith, omega arith, bounded);
  bytes_kept = rw count (sym (take-window_first b bs k i0 i_n n w short fits));
}
  where
    count : m - i0 ≡ n
    count = omega arith

-- a cut of a later buffer
pub IsCut-later :
    (b : Buffer) (bs : List Buffer) (k i0 i_n n m j r : ℕ)
    → IsWindow (b ∷ bs) (suc (suc k)) i0 i_n
    → n ≡ b.size - i0 + m
    → IsCut bs k 0 i_n m j r
    → IsCut (b ∷ bs) (suc k) i0 i_n n (suc j) r
IsCut-later b bs k i0 i_n n m j r w e c = record {
  within = omega (arith, c.within);
  in_bounds = (w.0, w.1, c.in_bounds);
  bytes_kept = rw c.bytes_kept (
      sym (
        take-append_add m (bytes (b.data_ptr + i0) (b.size - i0)) (window bs (suc k) 0 i_n)
          (omega (arith, length-bytes (b.data_ptr + i0) (b.size - i0)))));
}

pub first_bounds :
    (b : Buffer) (bs : List Buffer) (k i0 i_n : ℕ)
    → IsWindow (b ∷ bs) (suc k) i0 i_n
    → (i0 ≤ b.size) × (b.size < size_mod)
first_bounds b bs zero i0 i_n w = omega arith
first_bounds b bs (suc k) i0 i_n w = (w.0, w.1)

-- What the loop finds from its buffer i on.
abbrev pub Found : Option Buffer → List Buffer → ℕ → ℕ → ℕ → ℕ → Type 0
Found back bs k i_n i n =
    (j : ℕ) × (r : ℕ) × (find_loop back (take (suc k) bs) i n ≡ some (i + j, r))
    × IsCut bs k 0 i_n n j r

Found-here :
    (back : Option Buffer) (b : Buffer) (bs : List Buffer) (k i_n i n : ℕ)
    → IsWindow (b ∷ bs) (suc k) 0 i_n
    → n ≤ length (window (b ∷ bs) (suc k) 0 i_n)
    → leb n b.size ≡ true
    → Found back (b ∷ bs) k i_n i n
unfolding find_loop
Found-here back b bs k i_n i n w short hit =
    let bounds = first_bounds b bs k 0 i_n w in
    (
      0,
      n,
      rw hit (ground arith),
      IsCut-first b bs k 0 i_n n w short (ground arith) bounds.0 bounds.1 (omega arith),
    )

Found-later :
    (back : Option Buffer) (b : Buffer) (bs : List Buffer) (k i_n i n : ℕ)
    → IsWindow (b ∷ bs) (suc (suc k)) 0 i_n
    → n < size_mod
    → i + suc k < size_mod
    → leb n b.size ≡ false
    → Found back bs k i_n (i + 1) (n - b.size)
    → Found back (b ∷ bs) (suc k) i_n i n
unfolding find_loop
Found-later back b bs k i_n i n w word few miss (j, r, e, c) = (
  suc j,
  r,
  rw (miss, add64_exact i 1 (omega arith), sub64_exact n b.size (ground arith) word)
      (e ∙ ap (λ m. some (m, r)) (omega arith)),
  IsCut-later b bs k 0 i_n n (n - b.size) j r w (ground arith) c,
)

pub find_loop-Found :
    (back : Option Buffer) (bs : List Buffer) (k i_n i n : ℕ)
    → IsWindow bs (suc k) 0 i_n
    → n ≤ length (window bs (suc k) 0 i_n)
    → n < size_mod
    → i + k < size_mod
    → Found back bs k i_n i n
find_loop-Found back [] k i_n i n w short word few = elim w [ ]
find_loop-Found back (b ∷ bs) zero i_n i n w short word few =
    Found-here back b bs zero i_n i n w short (ground (arith, length-window_one b bs 0 i_n))
find_loop-Found back (b ∷ bs) (suc k) i_n i n w short word few = elim (Bool-cases (leb n b.size)) [
  | inl hit ↦ Found-here back b bs (suc k) i_n i n w short hit
  | inr miss ↦ Found-later back b bs k i_n i n w word few miss (
      find_loop-Found back bs k i_n (i + 1) (n - b.size) w.2
        (ground (arith, length-window_more b bs k 0 i_n)) (omega arith) (omega arith))
]
