-- ===== src/BufferSpan/KeepsLast.antt =====
-- Subspans of source/sio/const_buffer_span.hpp that end like a given one: the cuts at which
-- const_buffer_subspan::suffix may start.
use senders_io.Prelude.{
  ℕ, zero, suc, ◌+◌, ◌-◌, ◌≤◌, ◌≡◌, refl, sym, ap, subst, ◌∙◌, Option, some, List, [], ◌∷◌, ◌++◌,
  append_assoc, arith, length, get_elem?, length-append, drop, length-drop, drop-append_le,
  drop-append_add,
}
use senders_io.Buffer.{Buffer}
use senders_io.Buffer.Content.{bytes, length-bytes, drop-bytes}
use senders_io.BufferSpan.{Subspan, make_subspan}
use senders_io.BufferSpan.Window.{
  window, content, IsWindow, IsValid, subspan, make_subspan-content, make_subspan-IsWindow,
  make_subspan-size_le,
}
use senders_io.BufferSpan.Size.{length-window_more}

-- A result that holds the last m bytes of the subspan, and is valid.
abbrev pub KeepsLast : Subspan → ℕ → Option Subspan → Type 0
KeepsLast s m r =
    (t : Subspan) × (r ≡ some t)
    × (content t ≡ drop (length (content s) - m) (content s))
    × IsValid t

pub KeepsLast-intro :
    (s : Subspan) (m : ℕ) (bs : List Buffer) (size i0 i_n : ℕ)
    → IsValid s
    → IsWindow bs size i0 i_n
    → size ≤ s.size
    → window bs size i0 i_n ≡ drop (length (content s) - m) (content s)
    → KeepsLast s m (some (make_subspan bs size i0 i_n))
KeepsLast-intro s m bs size i0 i_n v w fewer same = (
  make_subspan bs size i0 i_n,
  refl,
  kept,
  record {
    in_bounds = make_subspan-IsWindow bs size i0 i_n w;
    few_bytes =
        omega
          (arith, ap length kept, length-drop (length (content s) - m) (content s), v.few_bytes);
    few_buffers = omega (arith, make_subspan-size_le bs size i0 i_n, v.few_buffers);
  },
)
  where
    kept : content (make_subspan bs size i0 i_n) ≡ drop (length (content s) - m) (content s)
    kept = make_subspan-content bs size i0 i_n ∙ same

-- A window that starts q bytes later.
pub drop-window :
    (b : Buffer) (bs : List Buffer) (k i0 i_n q : ℕ) {p : ℕ}
    → IsWindow (b ∷ bs) (suc (suc k)) i0 i_n
    → i0 + q ≤ b.size
    → p ≡ i0 + q
    → window (b ∷ bs) (suc (suc k)) p i_n ≡ drop q (window (b ∷ bs) (suc (suc k)) i0 i_n)
drop-window b bs k i0 i_n q {p} w inside e = sym (
    drop-append_le q (bytes (b.data_ptr + i0) (b.size - i0)) (window bs (suc k) 0 i_n)
      (omega (arith, length-bytes (b.data_ptr + i0) (b.size - i0)))
    ∙ rw (
        drop-bytes q (b.data_ptr + i0) (b.size - i0) {q = b.data_ptr + p} {m = b.size - p}
          (omega arith) (omega arith) (omega arith)))

pub drop-window_one :
    (b : Buffer) (bs : List Buffer) (i0 i_n q : ℕ) {p : ℕ}
    → i0 + q ≤ i_n
    → p ≡ i0 + q
    → window (b ∷ bs) 1 p i_n ≡ drop q (window (b ∷ bs) 1 i0 i_n)
drop-window_one b bs i0 i_n q {p} inside e = sym (
    drop-bytes q (b.data_ptr + i0) (i_n - i0) {q = b.data_ptr + p} {m = i_n - p} (omega arith)
      (omega arith) (omega arith))

-- The window from a later buffer on, and what comes before it.
abbrev pub Split : List Buffer → ℕ → ℕ → ℕ → ℕ → ℕ → Type 0
Split bs m i0 i_n i d =
    (front : List ℕ) × (window bs (suc (suc m)) i0 i_n
      ≡ front ++ window (drop (suc i) bs) (suc d) 0 i_n)
    × IsWindow (drop (suc i) bs) (suc d) 0 i_n

pub window-Split :
    (bs : List Buffer) (m i0 i_n i d : ℕ)
    → m ≡ i + d
    → IsWindow bs (suc (suc m)) i0 i_n
    → Split bs m i0 i_n i d
window-Split [] m i0 i_n i d e w = elim w [ ]
window-Split (b ∷ bs) m i0 i_n zero d e w =
    let same : m ≡ d = omega arith in
    (
      bytes (b.data_ptr + i0) (b.size - i0),
      ap (λ x. bytes (b.data_ptr + i0) (b.size - i0) ++ window bs (suc x) 0 i_n) same,
      subst (λ x. IsWindow bs (suc x) 0 i_n) same w.2,
    )
window-Split (b ∷ bs) zero i0 i_n (suc i) d e w = absurd (omega arith)
window-Split (b ∷ bs) (suc m) i0 i_n (suc i) d e w =
    let (front, same, rest) = window-Split bs m 0 i_n i d (omega arith) w.2 in
    let first : List ℕ = bytes (b.data_ptr + i0) (b.size - i0) in
    (
      first ++ front,
      ap (λ l. first ++ l) same
          ∙ sym (append_assoc first front (window (drop (suc i) bs) (suc d) 0 i_n)),
      rest,
    )

pub get_elem?-window :
    (bs : List Buffer) (k i i0 i_n : ℕ)
    → i ≤ k
    → IsWindow bs (suc k) i0 i_n
    → (b : Buffer) × (rest : List Buffer) × (get_elem? bs i ≡ some b)
      × (drop i bs ≡ b ∷ rest)
      × (drop (suc i) bs ≡ rest)
get_elem?-window [] k i i0 i_n h w = elim w [ ]
get_elem?-window (b ∷ bs) k zero i0 i_n h w = (b, bs, refl, refl, refl)
get_elem?-window (b ∷ bs) zero (suc i) i0 i_n h w = absurd (omega arith)
get_elem?-window (b ∷ bs) (suc k) (suc i) i0 i_n h w =
    get_elem?-window bs k i 0 i_n (omega arith) w.2

-- a cut in a later buffer c
module _ (bs : List Buffer) (k i0 i_n i d n m : ℕ) (c : Buffer) (rest : List Buffer)
    (v : IsValid (subspan bs (suc (suc k)) i0 i_n)) (position : k ≡ suc i + d)
    (here : drop (suc i) bs ≡ c ∷ rest) where
  abbrev pub after : List ℕ
  after = window rest (suc d) 0 i_n

  pub Split-here : Split bs k i0 i_n i (suc d)
  Split-here = window-Split bs k i0 i_n i (suc d) (omega arith) v.in_bounds

  pub front : List ℕ
  front = Split-here.0

  window_here : window bs (suc (suc k)) i0 i_n ≡ front ++ window (c ∷ rest) (suc (suc d)) 0 i_n
  unfolding front
  window_here = Split-here.1 ∙ ap (λ l. front ++ window l (suc (suc d)) 0 i_n) here

  IsWindow-here : IsWindow (c ∷ rest) (suc (suc d)) 0 i_n
  IsWindow-here = subst (λ l. IsWindow l (suc (suc d)) 0 i_n) here Split-here.2

  pub bytes_here : length (window bs (suc (suc k)) i0 i_n) ≡ length front + (c.size + length after)
  bytes_here = omega (
    arith,
    ap length window_here,
    length-append front (window (c ∷ rest) (suc (suc d)) 0 i_n),
    length-window_more c rest d 0 i_n,
  )

  pub cut_here-KeepsLast :
      n ≤ c.size
      → n + length after ≡ m
      → KeepsLast
          (subspan bs (suc (suc k)) i0 i_n)
          m
          (some (make_subspan (c ∷ rest) (suc (suc d)) (c.size - n) i_n))
  cut_here-KeepsLast fits e =
      KeepsLast-intro (subspan bs (suc (suc k)) i0 i_n) m (c ∷ rest) (suc (suc d)) (c.size - n) i_n
        v (omega arith, IsWindow-here.1, IsWindow-here.2) (omega arith)
        (drop-window c rest d 0 i_n (c.size - n) IsWindow-here (omega arith) (omega arith)
          ∙ sym (
              ap (drop (length (window bs (suc (suc k)) i0 i_n) - m)) window_here
              ∙ drop-append_add (c.size - n) front (window (c ∷ rest) (suc (suc d)) 0 i_n)
                  (omega (arith, bytes_here))))
