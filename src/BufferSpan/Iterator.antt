-- ===== src/BufferSpan/Iterator.antt =====
-- const_buffer_subspan::const_iterator of source/sio/const_buffer_span.cpp.
use senders_io.Prelude.{
  ℕ, zero, suc, ◌+◌, ◌-◌, ◌≤◌, ◌<◌, ◌≡◌, refl, ◌∙◌, true, false, none, some, List, [], ◌∷◌, ◌++◌,
  arith, leb, length, get_elem?, size_mod, size_max, sub64_exact,
}
use senders_io.Buffer.{Buffer, advance_by}
use senders_io.Buffer
use senders_io.Buffer.Content
use senders_io.Buffer.Content.{bytes, buffer_content, drop-bytes}
use senders_io.BufferSpan.{Subspan, deref}
use senders_io.BufferSpan.Window.{window, IsWindow, subspan}

get_elem?_past {ℓ} : {A : Type ℓ} (xs : List A) (i : ℕ) → length xs ≤ i → get_elem? xs i ≡ none
get_elem?_past [] i h = refl
get_elem?_past (x ∷ xs) zero h = absurd (omega arith)
get_elem?_past (x ∷ xs) (suc i) h = get_elem?_past xs i (omega arith)

-- The first buffer of several, read through the iterator, is the first part of the subspan.
pub deref_first :
    (b : Buffer) (bs : List Buffer) (k i0 i_n : ℕ)
    → IsWindow (b ∷ bs) (suc (suc k)) i0 i_n
    → suc (suc k) < size_mod
    → (c : Buffer) × (deref (subspan (b ∷ bs) (suc (suc k)) i0 i_n) 0 ≡ some c)
      × (window (b ∷ bs) (suc (suc k)) i0 i_n ≡ Content.content c ++ window bs (suc k) 0 i_n)
unfolding deref Buffer.plus
deref_first b bs k i0 i_n w few = (advance_by b i0, reads, rw part)
  where
    reads : deref (subspan (b ∷ bs) (suc (suc k)) i0 i_n) 0 ≡ some (advance_by b i0)
    reads =
        let before : leb (suc (suc k) - 1) 0 ≡ false = ground arith in
        rw (sub64_exact (suc (suc k)) 1 (omega arith) few, before)

    part : Content.content (advance_by b i0) ≡ bytes (b.data_ptr + i0) (b.size - i0)
    part = (buffer_content b i0).0 ∙ drop-bytes i0 b.data_ptr b.size w.0 refl refl

-- The last buffer cannot be read through the iterator: for it the index becomes `size_t(-1)`,
-- which is outside every array.
pub deref_last_faults :
    (s : Subspan) (i : ℕ)
    → 0 < s.size
    → s.size < size_mod
    → length s.buffers ≤ size_max
    → s.size ≤ suc i
    → deref s i ≡ none
unfolding deref
deref_last_faults s i some_buffers few array last =
    rw (sub64_exact s.size 1 some_buffers few, at_end, get_elem?_past s.buffers size_max array)
  where
    at_end : leb (s.size - 1) i ≡ true
    at_end = ground arith
