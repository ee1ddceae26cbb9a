-- ===== src/BufferSpan/Prefix.antt =====
-- const_buffer_subspan::prefix keeps the first bytes of a subspan.
use senders_io.Prelude.{
  ℕ, zero, suc, ◌+◌, ◌-◌, ◌≤◌, ◌<◌, ◌≡◌, refl, sym, ap, ◌∙◌, inl, inr, true, false, none, some,
  List, [], ◌∷◌, arith, leb, ◌==◌, if◌then◌else◌, Bool-cases, length, take, length-take, size_mod,
  add64, sub64, add64_exact, sub64_exact, take_all, ◌>>=◌,
}
use senders_io.Buffer.{Buffer}
use senders_io.Buffer.Content.{bytes, length-bytes}
use senders_io.BufferSpan.{Subspan, make_subspan, find_buffer_index_for_n, last_of, prefix}
use senders_io.BufferSpan.Window.{
  window, content, IsWindow, IsValid, subspan, make_subspan-content, make_subspan-IsWindow,
  make_subspan-size_le,
}
use senders_io.BufferSpan.Size.{length-window_one, length-window_more}
use senders_io.BufferSpan.Cut.{
  IsCut, Found, IsCut-first, IsCut-later, first_bounds, find_loop-Found,
}

prefix_more :
    (b : Buffer) (bs : List Buffer) (k i0 i_n n : ℕ)
    → prefix (subspan (b ∷ bs) (suc k) i0 i_n) n ≡ (
        if leb n (sub64 b.size i0)
        then some (make_subspan (b ∷ bs) 1 i0 (add64 n i0))
        else (find_buffer_index_for_n (take k bs) (sub64 n (sub64 b.size i0)) >>= λ (index, rest).
            some (make_subspan (b ∷ bs) (add64 index 2) i0 rest)))
unfolding prefix
prefix_more b bs k i0 i_n n = simp (not_empty, rest)
  where
    not_empty : (suc k == 0) ≡ false
    not_empty = ground arith

    rest : suc k - 1 ≡ k
    rest = omega arith

module _ (b : Buffer) (bs : List Buffer) (k i0 i_n n : ℕ) (w : IsWindow (b ∷ bs) (suc k) i0 i_n)
    (word : n < size_mod) where
  first_length : sub64 b.size i0 ≡ b.size - i0
  first_length =
      let bounds = first_bounds b bs k i0 i_n w in sub64_exact b.size i0 bounds.0 bounds.1

  prefix_in_first :
      n ≤ b.size - i0
      → prefix (subspan (b ∷ bs) (suc k) i0 i_n) n ≡ some (make_subspan (b ∷ bs) 1 i0 (n + i0))
  prefix_in_first fits =
      let bounds = first_bounds b bs k i0 i_n w in
      let test : leb n (b.size - i0) ≡ true = ground arith in
      prefix_more b bs k i0 i_n n ∙ rw (first_length, test, add64_exact n i0 (omega arith))

  prefix_past_first :
      b.size - i0 < n
      → prefix (subspan (b ∷ bs) (suc k) i0 i_n) n ≡ (
          find_buffer_index_for_n (take k bs) (n - (b.size - i0)) >>= λ (index, rest).
          some (make_subspan (b ∷ bs) (add64 index 2) i0 rest))
  prefix_past_first past =
      let test : leb n (b.size - i0) ≡ false = ground arith in
      prefix_more b bs k i0 i_n n
      ∙ rw (first_length, test, sub64_exact n (b.size - i0) (omega arith) word)

-- A prefix is the subspan that ends at a cut.
abbrev Cuts : List Buffer → ℕ → ℕ → ℕ → ℕ → Type 0
Cuts bs k i0 i_n n =
    (j : ℕ) × (r : ℕ) × (prefix (subspan bs (suc k) i0 i_n) n ≡ some (make_subspan bs (suc j) i0 r))
    × IsCut bs k i0 i_n n j r

prefix_later-Cuts :
    (b : Buffer) (bs : List Buffer) (k i0 i_n n : ℕ)
    → IsWindow (b ∷ bs) (suc (suc k)) i0 i_n
    → n < size_mod
    → suc (suc k) < size_mod
    → b.size - i0 < n
    → Found (last_of (take (suc k) bs)) bs k i_n 0 (n - (b.size - i0))
    → Cuts (b ∷ bs) (suc k) i0 i_n n
unfolding find_buffer_index_for_n
prefix_later-Cuts b bs k i0 i_n n w word few past (j, r, e, c) = (
  suc j,
  r,
  prefix_past_first b bs (suc k) i0 i_n n w word past
      ∙ rw (e, ◌>>=◌) (ap (λ m. some (make_subspan (b ∷ bs) m i0 r)) index),
  IsCut-later b bs k i0 i_n n (n - (b.size - i0)) j r w (omega arith) c,
)
  where
    index : add64 (0 + j) 2 ≡ suc (suc j)
    index = add64_exact (0 + j) 2 (omega (arith, c.within)) ∙ omega arith

prefix-Cuts :
    (bs : List Buffer) (k i0 i_n n : ℕ)
    → IsWindow bs (suc k) i0 i_n
    → n ≤ length (window bs (suc k) i0 i_n)
    → n < size_mod
    → suc k < size_mod
    → Cuts bs k i0 i_n n
prefix-Cuts [] k i0 i_n n w short word few = elim w [ ]
prefix-Cuts (b ∷ bs) zero i0 i_n n w short word few = (
  0,
  n + i0,
  prefix_in_first b bs zero i0 i_n n w word fits,
  IsCut-first b bs zero i0 i_n n w short fits (omega arith) w.2 refl,
)
  where
    fits : n ≤ b.size - i0
    fits = omega (arith, length-window_one b bs i0 i_n)
prefix-Cuts (b ∷ bs) (suc k) i0 i_n n w short word few = elim (Bool-cases (leb n (b.size - i0))) [
  | inl hit ↦ (
    0,
    n + i0,
    prefix_in_first b bs (suc k) i0 i_n n w word (ground arith),
    IsCut-first b bs (suc k) i0 i_n n w short (ground arith) w.0 w.1 refl,
  )
  | inr miss ↦ prefix_later-Cuts b bs k i0 i_n n w word few (ground arith) (
      find_loop-Found (last_of (take (suc k) bs)) bs k i_n 0 (n - (b.size - i0)) w.2
        (omega (arith, length-window_more b bs k i0 i_n)) (omega arith) (omega arith))
]

length-take_le {ℓ} : {A : Type ℓ} (n : ℕ) (xs : List A) → length (take n xs) ≤ length xs
length-take_le n xs = omega (arith, length-take n xs)

make_subspan-IsValid :
    (bs : List Buffer) (k i0 i_n n j r : ℕ)
    → length (window bs (suc k) i0 i_n) < size_mod
    → suc k < size_mod
    → IsCut bs k i0 i_n n j r
    → IsValid (make_subspan bs (suc j) i0 r)
make_subspan-IsValid bs k i0 i_n n j r bytes_fit few c = record {
  in_bounds = make_subspan-IsWindow bs (suc j) i0 r c.in_bounds;
  few_bytes = omega (
    arith,
    ap length (make_subspan-content bs (suc j) i0 r ∙ c.bytes_kept),
    length-take_le n (window bs (suc k) i0 i_n),
  );
  few_buffers = omega (arith, make_subspan-size_le bs (suc j) i0 r, c.within);
}

-- A prefix of at most all bytes: a valid subspan that holds the first n bytes.
abbrev pub TakesFirst : Subspan → ℕ → Type 0
TakesFirst s n =
    (t : Subspan) × (prefix s n ≡ some t) × (content t ≡ take n (content s)) × IsValid t

prefix-TakesFirst_parts :
    (bs : List Buffer) (k i0 i_n n : ℕ)
    → IsValid (subspan bs k i0 i_n)
    → n ≤ length (window bs k i0 i_n)
    → TakesFirst (subspan bs k i0 i_n) n
unfolding prefix
prefix-TakesFirst_parts bs zero i0 i_n n v short =
    (subspan bs 0 i0 i_n, refl, sym (take_all n [] (omega arith)), v)
prefix-TakesFirst_parts bs (suc k) i0 i_n n v short =
    let (j, r, e, c) =
      prefix-Cuts bs k i0 i_n n v.in_bounds short (omega (arith, v.few_bytes)) v.few_buffers in
    (
      make_subspan bs (suc j) i0 r,
      e,
      make_subspan-content bs (suc j) i0 r ∙ c.bytes_kept,
      make_subspan-IsValid bs k i0 i_n n j r v.few_bytes v.few_buffers c,
    )

-- `prefix(n)` of a valid subspan with at least n bytes does not fault, and is a valid subspan
-- whose bytes are the first n bytes.
pub prefix-TakesFirst : (s : Subspan) (n : ℕ) → IsValid s → n ≤ length (content s) → TakesFirst s n
prefix-TakesFirst s n v short = prefix-TakesFirst_parts s.buffers s.size s.i0 s.i_n n v short

module _ (b : Buffer) (bs : List Buffer) (i0 i_n n : ℕ) (w : IsWindow (b ∷ bs) 1 i0 i_n)
    (word : n < size_mod) where
  -- A prefix longer than a subspan of one buffer, but within that buffer, is no prefix of it: it
  -- has n bytes, more than the subspan, the last of them behind its end.
  pub prefix_overruns :
      i_n - i0 < n
      → n ≤ b.size - i0
      → (t : Subspan) × (prefix (subspan (b ∷ bs) 1 i0 i_n) n ≡ some t)
        × (content t ≡ bytes (b.data_ptr + i0) n)
        × (length (content (subspan (b ∷ bs) 1 i0 i_n)) < length (content t))
  prefix_overruns more fits =
      let same : content (make_subspan (b ∷ bs) 1 i0 (n + i0)) ≡ bytes (b.data_ptr + i0) n =
        make_subspan-content (b ∷ bs) 1 i0 (n + i0) ∙ ap (bytes (b.data_ptr + i0)) (omega arith) in
      (
        make_subspan (b ∷ bs) 1 i0 (n + i0),
        prefix_in_first b bs 0 i0 i_n n w word fits,
        same,
        omega (
          arith,
          ap length same,
          length-bytes (b.data_ptr + i0) n,
          length-window_one b bs i0 i_n,
        ),
      )

  -- A prefix longer than the buffer of a subspan of one buffer is a fault, the back of an empty span.
  pub prefix_faults : b.size - i0 < n → prefix (subspan (b ∷ bs) 1 i0 i_n) n ≡ none
  unfolding find_buffer_index_for_n
  prefix_faults past = prefix_past_first b bs 0 i0 i_n n w word past
