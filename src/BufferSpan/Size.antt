-- ===== src/BufferSpan/Size.antt =====
-- const_buffer_subspan::buffer_size counts the bytes of the subspan.
use senders_io.Prelude.{
  ℕ, zero, suc, ◌+◌, ◌-◌, ◌<◌, ◌≡◌, refl, sym, ap, ◌∙◌, false, some, List, [], ◌∷◌, arith, ◌==◌,
  length, length-append, take, size_mod, add64, sub64, add64_exact, sub64_exact,
}
use senders_io.Buffer.{Buffer}
use senders_io.Buffer.Content.{bytes, length-bytes}
use senders_io.BufferSpan.{Subspan, add_sizes, buffer_size}
use senders_io.BufferSpan.Window.{window, content, IsWindow, IsValid, subspan}

pub length-window_one :
    (b : Buffer) (bs : List Buffer) (i0 i_n : ℕ) → length (window (b ∷ bs) 1 i0 i_n) ≡ i_n - i0
length-window_one b bs i0 i_n = length-bytes _ (i_n - i0)

pub length-window_more :
    (b : Buffer) (bs : List Buffer) (k i0 i_n : ℕ)
    → length (window (b ∷ bs) (suc (suc k)) i0 i_n) ≡ b.size - i0 + length (window bs (suc k) 0 i_n)
length-window_more b bs k i0 i_n = omega (
  arith,
  length-append (bytes (b.data_ptr + i0) (b.size - i0)) (window bs (suc k) 0 i_n),
  length-bytes (b.data_ptr + i0) (b.size - i0),
)

-- the loop, from the second buffer on
add_sizes-window :
    (acc k : ℕ) (bs : List Buffer) (i_n : ℕ)
    → IsWindow bs (suc k) 0 i_n
    → acc + length (window bs (suc k) 0 i_n) < size_mod
    → add64 (add_sizes acc (take k bs)) i_n ≡ acc + length (window bs (suc k) 0 i_n)
unfolding add_sizes
add_sizes-window acc k [] i_n w fits = elim w [ ]
add_sizes-window acc zero (b ∷ bs) i_n w fits =
    omega (arith, add64_exact acc i_n, length-window_one b bs 0 i_n)
add_sizes-window acc (suc k) (b ∷ bs) i_n w fits =
    let more = length-window_more b bs k 0 i_n in
    rw (add64_exact acc b.size (omega (arith, more)), add_sizes)
      (omega (arith, more, add_sizes-window (acc + b.size) k bs i_n w.2 (omega (arith, more))))

buffer_size_more :
    (b : Buffer) (bs : List Buffer) (k i0 i_n : ℕ)
    → buffer_size (subspan (b ∷ bs) (suc (suc k)) i0 i_n)
      ≡ some (add64 (add_sizes (sub64 b.size i0) (take k bs)) i_n)
unfolding buffer_size
buffer_size_more b bs k i0 i_n = simp (not_empty, not_one, rest)
  where
    not_empty : (suc (suc k) == 0) ≡ false
    not_empty = ground arith

    not_one : (suc (suc k) == 1) ≡ false
    not_one = ground arith

    rest : suc (suc k) - 2 ≡ k
    rest = omega arith

buffer_size-window :
    (bs : List Buffer) (k i0 i_n : ℕ)
    → IsWindow bs k i0 i_n
    → length (window bs k i0 i_n) < size_mod
    → buffer_size (subspan bs k i0 i_n) ≡ some (length (window bs k i0 i_n))
unfolding buffer_size
buffer_size-window bs zero i0 i_n w fits = refl
buffer_size-window [] (suc k) i0 i_n w fits = elim w [ ]
buffer_size-window (b ∷ bs) (suc zero) i0 i_n w fits =
    ap some (sub64_exact i_n i0 w.0 (omega arith) ∙ sym (length-window_one b bs i0 i_n))
buffer_size-window (b ∷ bs) (suc (suc k)) i0 i_n w fits =
    buffer_size_more b bs k i0 i_n ∙ ap some total
  where
    total :
        add64 (add_sizes (sub64 b.size i0) (take k bs)) i_n
        ≡ length (window (b ∷ bs) (suc (suc k)) i0 i_n)
    total =
        let more = length-window_more b bs k i0 i_n in
        rw (sub64_exact b.size i0 w.0 w.1)
          (omega (arith, more, add_sizes-window (b.size - i0) k bs i_n w.2 (omega (arith, more))))

-- On a valid subspan `buffer_size` does not fault, does not wrap, and is the number of its bytes.
pub buffer_size-length : (s : Subspan) → IsValid s → buffer_size s ≡ some (length (content s))
buffer_size-length s v = buffer_size-window s.buffers s.size s.i0 s.i_n v.in_bounds v.few_bytes
