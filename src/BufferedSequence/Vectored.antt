-- ===== src/BufferedSequence/Vectored.antt =====
-- advance over several buffers: what it keeps of their bytes, and where it puts the file offset.
use senders_io.Prelude.{
  ℕ, ◌+◌, ◌-◌, ◌≤◌, ◌<◌, ◌≡◌, refl, sym, ap, ◌∙◌, inl, inr, false, some, List, [], ◌∷◌, ◌++◌, arith,
  ltb, ◌==◌, ==_iff, Bool-cases, drop, drop_all, drop-append_le, drop-append_add,
}
use senders_io.Buffer.{Buffer}
use senders_io.Buffer.Content.{content, buffer_content, length-bytes}
use senders_io.BufferedSequence.{VectorSpan, advance_loop, advance_vector}

-- the bytes of the buffers in order
abbrev pub all_content : List Buffer → List ℕ
all_content [] = []
all_content (b ∷ bs) = content b ++ all_content bs

advance_loop-content :
    (bs : List Buffer) (n : ℕ) → all_content (advance_loop bs n).0 ≡ drop n (all_content bs)
unfolding advance_loop
advance_loop-content [] n = sym (drop_all n [] (omega arith))
advance_loop-content (b ∷ bs) n = elim (Bool-cases (n == 0)) [
  | inl e ↦ rw (e, (==_iff n 0).0 e) refl
  | inr ne ↦ elim (Bool-cases (ltb n b.size)) [
    | inl part ↦
        rw (ne, part)
          (ap (λ l. l ++ all_content bs) (buffer_content b n).0
            ∙ sym (
                drop-append_le n (content b) (all_content bs)
                  (ground (arith, part, length-bytes b.data_ptr b.size))))
    | inr all ↦
        rw (ne, all)
          (advance_loop-content bs (n - b.size)
            ∙ sym (
                drop-append_add (n - b.size) (content b) (all_content bs)
                  (ground (arith, all, length-bytes b.data_ptr b.size))))
  ]
]

-- `advance(n)` of several buffers drops their first n bytes, or all where they have fewer.
pub advance_vector-content :
    (s : VectorSpan) (n : ℕ)
    → all_content (advance_vector n s).buffers ≡ drop n (all_content s.buffers)
unfolding advance_vector
advance_vector-content s n = advance_loop-content s.buffers n

rest_le : (bs : List Buffer) (n : ℕ) → (advance_loop bs n).1 ≤ n
unfolding advance_loop
rest_le [] n = omega arith
rest_le (b ∷ bs) n = ground (arith, rest_le bs (n - b.size))

-- The file offset moves by n only as long as no buffer is used up: when the first of them is, it
-- falls behind by at least its size, so that the next transfer goes to the wrong place.
pub advance_vector_falls_behind :
    (b : Buffer) (bs : List Buffer) (offset n : ℕ)
    → 0 < b.size
    → b.size ≤ n
    → (after : ℕ) × ((advance_vector n (record { buffers = b ∷ bs; offset = some offset })).offset
        ≡ some after)
      × (after + b.size ≤ offset + n)
unfolding advance_vector advance_loop
advance_vector_falls_behind b bs offset n some_bytes used = (
  offset + (advance_loop bs (n - b.size)).1,
  rw (moved, used_up) refl,
  omega (arith, rest_le bs (n - b.size)),
)
  where
    moved : (n == 0) ≡ false
    moved = ground arith

    used_up : ltb n b.size ≡ false
    used_up = ground arith
