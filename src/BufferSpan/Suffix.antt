-- ===== src/BufferSpan/Suffix.antt =====
-- const_buffer_subspan::suffix keeps the last bytes of a subspan, where its loop over the inner
-- buffers may take the first buffer's size for theirs.
use senders_io.Prelude.{
  ℕ, zero, suc, ◌+◌, ◌-◌, ◌≤◌, ◌<◌, ◌≡◌, refl, sym, ap, subst, ◌∙◌, ◌≢◌, ◌⊎◌, inl, inr, true, false,
  some, List, [], ◌∷◌, ◌++◌, arith, leb, ◌==◌, if◌then◌else◌, Bool-cases, length, length-append,
  drop, size_mod, sub64, add64_exact, sub64_exact, drop_all, drop-append_add,
}
use senders_io.Buffer.{Buffer}
use senders_io.BufferSpan.{Subspan, make_subspan, suffix_loop, suffix}
use senders_io.BufferSpan.Window.{window, content, IsWindow, IsValid, subspan, make_subspan-content}
use senders_io.BufferSpan.Size.{length-window_one, length-window_more}
use senders_io.BufferSpan.KeepsLast.{
  KeepsLast, KeepsLast-intro, drop-window_one, get_elem?-window, window-Split,
}
use senders_io.BufferSpan.SuffixLoop.{AllSized, suffix_loop_first, suffix_loop-KeepsLast}

suffix_more :
    (b : Buffer) (bs : List Buffer) (k i0 i_n n : ℕ)
    → suffix (subspan (b ∷ bs) (suc (suc k)) i0 i_n) n ≡ (
        if leb n i_n
        then some (make_subspan (drop k bs) 1 (sub64 i_n n) i_n)
        else suffix_loop (subspan (b ∷ bs) (suc (suc k)) i0 i_n) k (sub64 n i_n))
suffix_more b bs k i0 i_n n = unfold suffix in simp (not_empty, not_one, last, inner)
  where
    not_empty : (suc (suc k) == 0) ≡ false
    not_empty = ground arith

    not_one : (suc (suc k) == 1) ≡ false
    not_one = ground arith

    last : suc (suc k) - 1 ≡ suc k
    last = omega arith

    inner : suc (suc k) - 2 ≡ k
    inner = omega arith

-- a cut in the last of several buffers
last_cut-KeepsLast :
    (b c : Buffer) (bs rest : List Buffer) (k i0 i_n m : ℕ)
    → IsValid (subspan (b ∷ bs) (suc (suc k)) i0 i_n)
    → drop k bs ≡ c ∷ rest
    → m ≤ i_n
    → KeepsLast
        (subspan (b ∷ bs) (suc (suc k)) i0 i_n)
        m
        (some (make_subspan (c ∷ rest) 1 (i_n - m) i_n))
last_cut-KeepsLast b c bs rest k i0 i_n m v here fits =
    let (front, same, w) = window-Split (b ∷ bs) k i0 i_n k 0 (omega arith) v.in_bounds in
    let w' : IsWindow (c ∷ rest) 1 0 i_n = subst (λ l. IsWindow l 1 0 i_n) here w in
    let same' : window (b ∷ bs) (suc (suc k)) i0 i_n ≡ front ++ window (c ∷ rest) 1 0 i_n =
      same ∙ ap (λ l. front ++ window l 1 0 i_n) here in
    let total : length (window (b ∷ bs) (suc (suc k)) i0 i_n) ≡ length front + i_n = omega (
      arith,
      ap length same',
      length-append front (window (c ∷ rest) 1 0 i_n),
      length-window_one c rest 0 i_n,
    ) in
    KeepsLast-intro (subspan (b ∷ bs) (suc (suc k)) i0 i_n) m (c ∷ rest) 1 (i_n - m) i_n v
      (omega arith, w'.1, w'.2) (omega arith)
      (drop-window_one c rest 0 i_n (i_n - m) (omega arith) (omega arith)
        ∙ sym (
            ap (drop (length (window (b ∷ bs) (suc (suc k)) i0 i_n) - m)) same'
            ∙ drop-append_add (i_n - m) front (window (c ∷ rest) 1 0 i_n) (omega (arith, total))))

-- At most two buffers, or buffers of one size that the subspan uses to the end of the last.
abbrev pub IsRegular : Subspan → Type 0
IsRegular s = (s.size ≤ 2) ⊎ ((AllSized s.i_n s.buffers (s.size - 1)) × (2 ≤ s.size))

suffix_one-KeepsLast :
    (b : Buffer) (bs : List Buffer) (i0 i_n m : ℕ)
    → IsValid (subspan (b ∷ bs) 1 i0 i_n)
    → m ≤ length (window (b ∷ bs) 1 i0 i_n)
    → KeepsLast (subspan (b ∷ bs) 1 i0 i_n) m (suffix (subspan (b ∷ bs) 1 i0 i_n) m)
unfolding suffix
suffix_one-KeepsLast b bs i0 i_n m v short =
    let w = v.in_bounds in
    let total = length-window_one b bs i0 i_n in
    let inside : leb m (i_n - i0) ≡ true = ground arith in
    rw
      (
        sub64_exact i_n i0 w.0 (omega arith),
        inside,
        add64_exact i0 (i_n - i0) (omega arith),
        sub64_exact (i0 + (i_n - i0)) m (omega arith) (omega arith),
      )
      (KeepsLast-intro (subspan (b ∷ bs) 1 i0 i_n) m (b ∷ bs) 1 (i0 + (i_n - i0) - m) i_n v
        (omega arith, w.1, w.2) (omega arith)
        (drop-window_one b bs i0 i_n (length (window (b ∷ bs) 1 i0 i_n) - m) (omega arith)
          (omega arith)))

end_bounded : (bs : List Buffer) (k i0 i_n : ℕ) → IsWindow bs (suc k) i0 i_n → i_n < size_mod
end_bounded [] k i0 i_n w = elim w [ ]
end_bounded (b ∷ bs) zero i0 i_n w = omega arith
end_bounded (b ∷ bs) (suc k) i0 i_n w = end_bounded bs k 0 i_n w.2

two_buffers-KeepsLast :
    (b : Buffer) (bs : List Buffer) (k i0 i_n m : ℕ)
    → IsValid (subspan (b ∷ bs) (suc (suc k)) i0 i_n)
    → suc (suc k) ≤ 2
    → m ≤ length (window (b ∷ bs) (suc (suc k)) i0 i_n)
    → m - i_n + length (window (drop k bs) 1 0 i_n) ≡ m
    → KeepsLast
        (subspan (b ∷ bs) (suc (suc k)) i0 i_n)
        m
        (suffix_loop (subspan (b ∷ bs) (suc (suc k)) i0 i_n) k (m - i_n))
two_buffers-KeepsLast b bs zero i0 i_n m v two short tail =
    suffix_loop_first b bs 0 i0 i_n (m - i_n) m v tail short
two_buffers-KeepsLast b bs (suc k) i0 i_n m v two short tail = absurd (omega arith)

module _ (b : Buffer) (bs : List Buffer) (k i0 i_n m : ℕ)
    (v : IsValid (subspan (b ∷ bs) (suc (suc k)) i0 i_n)) where
  suffix_hit-KeepsLast :
      m ≤ i_n
      → KeepsLast
          (subspan (b ∷ bs) (suc (suc k)) i0 i_n)
          m
          (suffix (subspan (b ∷ bs) (suc (suc k)) i0 i_n) m)
  suffix_hit-KeepsLast fits =
      let test : leb m i_n ≡ true = ground arith in
      let bound = end_bounded (b ∷ bs) (suc k) i0 i_n v.in_bounds in
      let (c, rest, found, here, next) =
        get_elem?-window (b ∷ bs) (suc k) (suc k) i0 i_n (omega arith) v.in_bounds in
      rw (suffix_more b bs k i0 i_n m, test, sub64_exact i_n m fits bound, here)
        (last_cut-KeepsLast b c bs rest k i0 i_n m v here fits)

  suffix_miss-KeepsLast :
      IsRegular (subspan (b ∷ bs) (suc (suc k)) i0 i_n)
      → m ≤ length (window (b ∷ bs) (suc (suc k)) i0 i_n)
      → i_n < m
      → KeepsLast
          (subspan (b ∷ bs) (suc (suc k)) i0 i_n)
          m
          (suffix_loop (subspan (b ∷ bs) (suc (suc k)) i0 i_n) k (m - i_n))
  suffix_miss-KeepsLast r short past =
      let (c, rest, found, here, next) =
        get_elem?-window (b ∷ bs) (suc k) (suc k) i0 i_n (omega arith) v.in_bounds in
      let tail : m - i_n + length (window (drop k bs) 1 0 i_n) ≡ m =
        rw here (omega (arith, length-window_one c rest 0 i_n)) in
      elim r [
        | inl two ↦ two_buffers-KeepsLast b bs k i0 i_n m v two short tail
        | inr alike ↦
            let sized = subst (AllSized i_n (b ∷ bs)) (predecessor) alike.0 in
            suffix_loop-KeepsLast b bs k i0 i_n m v short (sym sized.0)
              (subst (λ l. AllSized l (b ∷ bs) (suc k)) (sym sized.0) sized) k 0 (m - i_n)
              (omega arith) tail
      ]
    where
      predecessor : suc (suc k) - 1 ≡ suc k
      predecessor = omega arith

suffix-KeepsLast_parts :
    (bs : List Buffer) (size i0 i_n m : ℕ)
    → IsValid (subspan bs size i0 i_n)
    → IsRegular (subspan bs size i0 i_n)
    → m ≤ length (window bs size i0 i_n)
    → KeepsLast (subspan bs size i0 i_n) m (suffix (subspan bs size i0 i_n) m)
unfolding suffix
suffix-KeepsLast_parts bs zero i0 i_n m v r short =
    (subspan bs 0 i0 i_n, refl, sym (drop_all (0 - m) [] (omega arith)), v)
suffix-KeepsLast_parts [] (suc k) i0 i_n m v r short = elim v.in_bounds [ ]
suffix-KeepsLast_parts (b ∷ bs) (suc zero) i0 i_n m v r short =
    suffix_one-KeepsLast b bs i0 i_n m v short
suffix-KeepsLast_parts (b ∷ bs) (suc (suc k)) i0 i_n m v r short = elim (Bool-cases (leb m i_n)) [
  | inl hit ↦ suffix_hit-KeepsLast b bs k i0 i_n m v (ground arith)
  | inr miss ↦
      rw
        (
          suffix_more b bs k i0 i_n m,
          miss,
          sub64_exact m i_n (ground arith) (omega (arith, v.few_bytes)),
        )
        (suffix_miss-KeepsLast b bs k i0 i_n m v r short (ground arith))
]

-- `suffix(n)` of a valid subspan with at least n bytes does not fault, and is a valid subspan whose
-- bytes are the last n bytes, if the subspan has at most two buffers, or if all of its buffers have
-- the same size and its end offset is that size, so that the last buffer is used up to its end.
pub suffix-KeepsLast :
    (s : Subspan) (n : ℕ)
    → IsValid s
    → IsRegular s
    → n ≤ length (content s)
    → KeepsLast s n (suffix s n)
suffix-KeepsLast s n v r short = suffix-KeepsLast_parts s.buffers s.size s.i0 s.i_n n v r short

-- Three buffers: a suffix that starts in the middle one ends where the first buffer's size says, so
-- it has the wrong number of bytes unless the last offset is the middle buffer's size.
pub suffix_loses_end :
    (a b c : Buffer) (i0 i_n n : ℕ)
    → IsValid (subspan (a ∷ b ∷ c ∷ []) 3 i0 i_n)
    → i_n < n
    → n ≤ i_n + a.size
    → a.size ≤ b.size
    → b.size ≢ i_n
    → (t : Subspan) × (suffix (subspan (a ∷ b ∷ c ∷ []) 3 i0 i_n) n ≡ some t)
      × (length (content t) ≢ n)
unfolding suffix_loop
suffix_loses_end a b c i0 i_n n v past inner wider other = (
  make_subspan (b ∷ c ∷ []) 2 (a.size - (n - i_n)) a.size,
  suffix_more a (b ∷ c ∷ []) 1 i0 i_n n
      ∙ rw (
        miss,
        sub64_exact n i_n (omega arith) word,
        hit,
        sub64_exact a.size (n - i_n) (omega arith) v.in_bounds.1,
      ),
  λ same. other (
      omega (
        arith,
        same,
        ap length (make_subspan-content (b ∷ c ∷ []) 2 (a.size - (n - i_n)) a.size),
        length-window_more b (c ∷ []) 0 (a.size - (n - i_n)) a.size,
        length-window_one c [] 0 a.size,
      )),
)
  where
    miss : leb n i_n ≡ false
    miss = ground arith

    hit : leb (n - i_n) a.size ≡ true
    hit = ground arith

    word : n < size_mod
    word = omega (
      arith,
      v.few_bytes,
      length-window_more a (b ∷ c ∷ []) 1 i0 i_n,
      length-window_more b (c ∷ []) 0 0 i_n,
      length-window_one c [] 0 i_n,
    )
