-- ===== src/BufferSpan/SuffixLoop.antt =====
-- The loop of const_buffer_subspan::suffix, over inner buffers of the first buffer's size.
use senders_io.Prelude.{
  ℕ, zero, suc, ◌+◌, ◌-◌, ◌≤◌, ◌<◌, ◌≡◌, sym, ap, subst, ◌∙◌, inl, inr, true, false, some, List, [],
  ◌∷◌, arith, leb, Bool-cases, length, get_elem?, drop, add64_exact, sub64_exact,
}
use senders_io.Buffer.{Buffer}
use senders_io.BufferSpan.{Subspan, make_subspan, suffix_loop}
use senders_io.BufferSpan.Window.{window, IsValid, subspan}
use senders_io.BufferSpan.Size.{length-window_more}
use senders_io.BufferSpan.KeepsLast.{
  KeepsLast, KeepsLast-intro, drop-window, get_elem?-window, cut_here-KeepsLast,
}

-- the loop at i = 0: the first buffer
pub suffix_loop_first :
    (b : Buffer) (bs : List Buffer) (k i0 i_n n m : ℕ)
    → IsValid (subspan (b ∷ bs) (suc (suc k)) i0 i_n)
    → n + length (window bs (suc k) 0 i_n) ≡ m
    → m ≤ length (window (b ∷ bs) (suc (suc k)) i0 i_n)
    → KeepsLast
        (subspan (b ∷ bs) (suc (suc k)) i0 i_n)
        m
        (suffix_loop (subspan (b ∷ bs) (suc (suc k)) i0 i_n) 0 n)
unfolding suffix_loop
suffix_loop_first b bs k i0 i_n n m v e short =
    let w = v.in_bounds in
    let total = length-window_more b bs k i0 i_n in
    let inside : leb n (b.size - i0) ≡ true = ground arith in
    rw
      (
        sub64_exact b.size i0 w.0 w.1,
        inside,
        add64_exact i0 (b.size - i0) (omega arith),
        sub64_exact (i0 + (b.size - i0)) n (omega arith) (omega arith),
      )
      (KeepsLast-intro (subspan (b ∷ bs) (suc (suc k)) i0 i_n) m (b ∷ bs) (suc (suc k))
        (i0 + (b.size - i0) - n) i_n v (omega arith, w.1, w.2) (omega arith)
        (drop-window b bs k i0 i_n (length (window (b ∷ bs) (suc (suc k)) i0 i_n) - m) w
          (omega arith) (omega arith)))

-- the first n buffers have size L
abbrev pub AllSized : ℕ → List Buffer → ℕ → Type 0
AllSized L bs zero = Unit {0}
AllSized L [] (suc n) = ⊥
AllSized L (b ∷ bs) (suc n) = (b.size ≡ L) × AllSized L bs n

AllSized-get :
    (L : ℕ) (bs : List Buffer) (n i : ℕ) {b : Buffer}
    → AllSized L bs n
    → i < n
    → get_elem? bs i ≡ some b
    → b.size ≡ L
AllSized-get L bs zero i a h e = absurd (omega arith)
AllSized-get L [] (suc n) i a h e = elim a [ ]
AllSized-get L (c ∷ bs) (suc n) zero a h e = ground arith
AllSized-get L (c ∷ bs) (suc n) (suc i) a h e = AllSized-get L bs n i a.1 (omega arith) e

module _ (b : Buffer) (bs : List Buffer) (k i0 i_n m : ℕ)
    (v : IsValid (subspan (b ∷ bs) (suc (suc k)) i0 i_n))
    (short : m ≤ length (window (b ∷ bs) (suc (suc k)) i0 i_n)) (full : i_n ≡ b.size)
    (alike : AllSized b.size (b ∷ bs) (suc k)) where
  abbrev pub whole : Subspan
  whole = subspan (b ∷ bs) (suc (suc k)) i0 i_n

  module _ (i d n : ℕ) (c : Buffer) (rest : List Buffer) (position : k ≡ suc i + d)
      (found : get_elem? bs i ≡ some c) (here : drop i bs ≡ c ∷ rest)
      (e : n + length (window rest (suc d) 0 i_n) ≡ m) where
    one_size : c.size ≡ b.size
    one_size = AllSized-get b.size (b ∷ bs) (suc k) (suc i) alike (omega arith) found

    step_hit : leb n b.size ≡ true → KeepsLast whole m (suffix_loop whole (suc i) n)
    unfolding suffix_loop
    step_hit hit =
        let count : suc (suc k) - suc i ≡ suc (suc d) = omega arith in
        rw (found, hit, here, count, sub64_exact b.size n (ground arith) v.in_bounds.1)
          (subst
            (λ x. KeepsLast whole m (some (make_subspan (c ∷ rest) (suc (suc d)) (b.size - n) x)))
            full
            (subst
              (λ x. KeepsLast whole m (some (make_subspan (c ∷ rest) (suc (suc d)) (x - n) i_n)))
              one_size
              (cut_here-KeepsLast (b ∷ bs) k i0 i_n i d n m c rest v position here
                (ground (arith, one_size)) e)))

    rest_bytes :
        leb n b.size ≡ false → n - c.size + length (window (drop i bs) (suc (suc d)) 0 i_n) ≡ m
    rest_bytes miss = rw here (ground (arith, one_size, length-window_more c rest d 0 i_n))

    step_miss :
        leb n b.size ≡ false
        → KeepsLast whole m (suffix_loop whole i (n - c.size))
        → KeepsLast whole m (suffix_loop whole (suc i) n)
    unfolding suffix_loop
    step_miss miss r =
        rw
          (
            found,
            miss,
            sub64_exact n c.size (ground (arith, one_size)) (omega (arith, v.few_bytes)),
          )
          r

  -- the loop, at buffers of one size
  pub suffix_loop-KeepsLast :
      (i d n : ℕ)
      → k ≡ i + d
      → n + length (window (drop i bs) (suc d) 0 i_n) ≡ m
      → KeepsLast whole m (suffix_loop whole i n)
  suffix_loop-KeepsLast zero d n position e =
      let same : k ≡ d = omega arith in
      suffix_loop_first b bs k i0 i_n n m v
        (ap (λ x. n + length (window bs (suc x) 0 i_n)) same ∙ e) short
  suffix_loop-KeepsLast (suc i) d n position e =
      let (c, rest, found, here, next) =
        get_elem?-window (b ∷ bs) (suc k) (suc i) i0 i_n (omega arith) v.in_bounds in
      let e' : n + length (window rest (suc d) 0 i_n) ≡ m =
        ap (λ l. n + length (window l (suc d) 0 i_n)) (sym next) ∙ e in
      elim (Bool-cases (leb n b.size)) [
        | inl hit ↦ step_hit i d n c rest position found here e' hit
        | inr miss ↦ step_miss i d n c rest position found here e' miss (
            suffix_loop-KeepsLast i (suc d) (n - c.size) (omega arith)
              (rest_bytes i d n c rest position found here e' miss))
      ]
