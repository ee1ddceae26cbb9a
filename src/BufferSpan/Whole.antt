-- ===== src/BufferSpan/Whole.antt =====
-- const_buffer_span as a whole, and without_prefix of source/sio/buffer_algorithms.hpp.
use senders_io.Prelude.{
  ℕ, zero, suc, ◌+◌, ◌-◌, ◌≤◌, ◌<◌, ◌≡◌, refl, sym, ap, ◌∙◌, inl, inr, true, some, List, [], ◌∷◌,
  ◌++◌, append-nil, arith, leb, Bool-cases, length, get_elem?, drop, length-take, length-drop,
  take-append-drop, size_mod, drop_all,
}
use senders_io.Buffer.{Buffer}
use senders_io.Buffer.Content.{bytes}
use senders_io.Buffer.Content
use senders_io.BufferSpan.{
  Subspan, Span, of_span, span_buffer_size, span_prefix, span_suffix, without_prefix,
}
use senders_io.BufferSpan.Window.{window, content, IsWindow, IsValid, subspan}
use senders_io.BufferSpan.Size.{buffer_size-length}
use senders_io.BufferSpan.Prefix.{prefix-TakesFirst}
use senders_io.BufferSpan.Suffix.{IsRegular, suffix-KeepsLast}

-- `without_prefix(s, n)` drops the first n bytes, all of them if there are fewer.
pub without_prefix_drops :
    (s : Subspan) (n : ℕ)
    → IsValid s
    → IsRegular s
    → (t : Subspan) × (without_prefix s n ≡ some t) × (content t ≡ drop n (content s)) × IsValid t
unfolding without_prefix
without_prefix_drops s n v r = elim (Bool-cases (leb n (length (content s)))) [
  | inl hit ↦
      let (t, e, c, valid) = suffix-KeepsLast s (length (content s) - n) v r (omega arith) in
      let same : length (content s) - (length (content s) - n) ≡ n = ground arith in
      (t, rw (buffer_size-length s v, hit) e, c ∙ ap (λ k. drop k (content s)) same, valid)
  | inr miss ↦
      let (t, e, c, valid) = suffix-KeepsLast s 0 v r (omega arith) in
      (
        t,
        rw (buffer_size-length s v, miss) e,
        c
            ∙ drop_all (length (content s) - 0) (content s) (omega arith)
            ∙ sym (drop_all n (content s) (ground arith)),
        valid,
      )
]

-- The pointer of a span reaches as many buffers as its size says.
abbrev pub Reaches : List Buffer → ℕ → Type 0
Reaches bs zero = Unit {0}
Reaches [] (suc k) = ⊥
Reaches (b ∷ bs) (suc k) = (b.size < size_mod) × Reaches bs k

-- all bytes of all buffers of a span
abbrev pub all_bytes : List Buffer → ℕ → List ℕ
all_bytes bs zero = []
all_bytes [] (suc k) = []
all_bytes (b ∷ bs) (suc k) = Content.content b ++ all_bytes bs k

whole_buffer : (b : Buffer) → bytes (b.data_ptr + 0) (b.size - 0) ≡ Content.content b
whole_buffer b = rw (start, count)
  where
    start : b.data_ptr + 0 ≡ b.data_ptr
    start = omega arith

    count : b.size - 0 ≡ b.size
    count = omega arith

last_buffer :
    (bs : List Buffer) (k : ℕ)
    → Reaches bs (suc k)
    → (last : Buffer) × (get_elem? bs k ≡ some last)
      × IsWindow bs (suc k) 0 last.size
      × (window bs (suc k) 0 last.size ≡ all_bytes bs (suc k))
last_buffer [] k r = elim r [ ]
last_buffer (b ∷ bs) zero r = (
  b,
  refl,
  (omega arith, omega arith, r.0),
  whole_buffer b ∙ sym (append-nil (Content.content b)),
)
last_buffer (b ∷ bs) (suc k) r =
    let (last, e, w, same) = last_buffer bs k r.1 in
    (last, e, (omega arith, r.0, w), rw (whole_buffer b, same))

of_span-IsValid :
    (bs : List Buffer) (k : ℕ)
    → Reaches bs k
    → length (all_bytes bs k) < size_mod
    → k < size_mod
    → (s : Subspan) × (of_span (record { buffers = bs; size = k }) ≡ some s)
      × (content s ≡ all_bytes bs k)
      × IsValid s
      × (s.size ≡ k)
unfolding of_span
of_span-IsValid bs zero r fits few = (
  subspan bs 0 0 0,
  refl,
  refl,
  record { in_bounds = tt; few_bytes = fits; few_buffers = few },
  refl,
)
of_span-IsValid bs (suc k) r fits few =
    let (last, e, w, same) = last_buffer bs k r in
    let present : leb 1 (suc k) ≡ true = ground arith in
    let count : suc k - 1 ≡ k = omega arith in
    (
      subspan bs (suc k) 0 last.size,
      rw (present, count, e),
      same,
      record { in_bounds = w; few_bytes = omega (arith, ap length same); few_buffers = few },
      refl,
    )

module _ (span : Span) (reaches : Reaches span.buffers span.size)
    (few_bytes : length (all_bytes span.buffers span.size) < size_mod)
    (few_buffers : span.size < size_mod) where
  -- The size of a span in bytes.
  pub span_buffer_size-length :
      span_buffer_size span ≡ some (length (all_bytes span.buffers span.size))
  unfolding span_buffer_size
  span_buffer_size-length =
      let (s, e, c, v, k) = of_span-IsValid span.buffers span.size reaches few_bytes few_buffers in
      rw e (buffer_size-length s v ∙ ap (λ l. some (length l)) c)

  -- A span of at most two buffers is cut in two: its first n bytes, and its other bytes.
  pub span_cut :
      (n m : ℕ)
      → span.size ≤ 2
      → n + m ≡ length (all_bytes span.buffers span.size)
      → (t u : Subspan) × (span_prefix span n ≡ some t)
        × (span_suffix span m ≡ some u)
        × (content t ++ content u ≡ all_bytes span.buffers span.size)
        × (length (content t) ≡ n)
        × (length (content u) ≡ m)
  unfolding span_prefix span_suffix
  span_cut n m two total =
      let (s, e, c, v, k) = of_span-IsValid span.buffers span.size reaches few_bytes few_buffers in
      let here : n + m ≡ length (content s) = omega (arith, ap length c) in
      let (t, et, ct, vt) = prefix-TakesFirst s n v (omega arith) in
      let (u, eu, cu, vu) = suffix-KeepsLast s m v (inl (omega arith)) (omega arith) in
      let cu' : content u ≡ drop n (content s) = cu ∙ ap (λ x. drop x (content s)) (omega arith) in
      (
        t,
        u,
        rw e et,
        rw e eu,
        rw (ct, cu') (take-append-drop n (content s) ∙ c),
        omega (arith, ap length ct, length-take n (content s)),
        omega (arith, ap length cu', length-drop n (content s)),
      )
