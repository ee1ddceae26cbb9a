-- ===== src/BufferSpan/Window.antt =====
-- What the subspan of source/sio/const_buffer_span.hpp stands for: the bytes of its buffers in order,
-- from offset i0 of the first to offset i_n of the last.
use senders_io.Prelude.{
  ℕ, zero, suc, ◌+◌, ◌-◌, ◌≤◌, ◌<◌, ◌≡◌, refl, sym, ◌⊎◌, inl, inr, ◌&&◌, List, [], ◌∷◌, ◌++◌, arith,
  ◌==◌, Bool-cases, length, size_mod,
}
use senders_io.Buffer.{Buffer}
use senders_io.Buffer.Content.{bytes}
use senders_io.BufferSpan.{Subspan, make_subspan}

abbrev pub window : List Buffer → ℕ → ℕ → ℕ → List ℕ
window bs zero i0 i_n = []
window [] (suc k) i0 i_n = []
window (b ∷ bs) (suc zero) i0 i_n = bytes (b.data_ptr + i0) (i_n - i0)
window (b ∷ bs) (suc (suc k)) i0 i_n =
    bytes (b.data_ptr + i0) (b.size - i0) ++ window bs (suc k) 0 i_n

abbrev pub content : Subspan → List ℕ
content s = window s.buffers s.size s.i0 s.i_n

-- The pointer reaches as many buffers as the size says, and the offsets lie within their buffers.
abbrev pub IsWindow : List Buffer → ℕ → ℕ → ℕ → Type 0
IsWindow bs zero i0 i_n = Unit {0}
IsWindow [] (suc k) i0 i_n = ⊥
IsWindow (b ∷ bs) (suc zero) i0 i_n = (i0 ≤ i_n) × (i_n ≤ b.size) × (b.size < size_mod)
IsWindow (b ∷ bs) (suc (suc k)) i0 i_n =
    (i0 ≤ b.size) × (b.size < size_mod) × IsWindow bs (suc k) 0 i_n

-- The bytes fit an address space of 64 bits, and so do the buffers.
pub record IsValid (s : Subspan) : Type 0 where
  pub in_bounds : IsWindow s.buffers s.size s.i0 s.i_n
  pub few_bytes : length (content s) < size_mod
  pub few_buffers : s.size < size_mod

abbrev pub subspan : List Buffer → ℕ → ℕ → ℕ → Subspan
subspan bs size i0 i_n = record { buffers = bs; size = size; i0 = i0; i_n = i_n }

make_subspan_cases :
    (bs : List Buffer) (size i0 i_n : ℕ)
    → ((size ≡ 1) × (i0 ≡ i_n) × (make_subspan bs size i0 i_n ≡ subspan [] 0 i0 i_n))
      ⊎ (make_subspan bs size i0 i_n ≡ subspan bs size i0 i_n)
unfolding make_subspan
make_subspan_cases bs size i0 i_n = elim (Bool-cases (size == 1 && i0 == i_n)) [
  | inl hit ↦ inl (ground arith, ground arith, rw hit)
  | inr miss ↦ inr (rw miss)
]

window-same : (bs : List Buffer) (i0 : ℕ) → window bs 1 i0 i0 ≡ []
unfolding bytes
window-same [] i0 = refl
window-same (b ∷ bs) i0 = rw gone
  where
    gone : i0 - i0 ≡ 0
    gone = omega arith

pub make_subspan-content :
    (bs : List Buffer) (size i0 i_n : ℕ)
    → content (make_subspan bs size i0 i_n) ≡ window bs size i0 i_n
make_subspan-content bs size i0 i_n = elim (make_subspan_cases bs size i0 i_n) [
  | inl (one, same, e) ↦ rw (e, one, same) (sym (window-same bs i_n))
  | inr e ↦ rw e
]

pub make_subspan-IsWindow :
    (bs : List Buffer) (size i0 i_n : ℕ)
    → IsWindow bs size i0 i_n
    → let t = make_subspan bs size i0 i_n in IsWindow t.buffers t.size t.i0 t.i_n
make_subspan-IsWindow bs size i0 i_n w = elim (make_subspan_cases bs size i0 i_n) [
  | inl (one, same, e) ↦ rw e tt
  | inr e ↦ rw e w
]

pub make_subspan-size_le :
    (bs : List Buffer) (size i0 i_n : ℕ) → (make_subspan bs size i0 i_n).size ≤ size
make_subspan-size_le bs size i0 i_n = elim (make_subspan_cases bs size i0 i_n) [
  | inl (one, same, e) ↦ rw e (omega arith)
  | inr e ↦ rw e (omega arith)
]
