-- ===== src/Buffer/Content.antt =====
-- A buffer seen as the list of the addresses of its bytes, for the operations of
-- source/sio/const_buffer.hpp.
use senders_io.Prelude.{
  ℕ, zero, suc, ◌+◌, ◌-◌, ◌≤◌, ◌≡◌, refl, sym, ap, inl, inr, true, List, [], ◌∷◌, arith, leb, tests,
  Bool-cases, length, take, drop, take_all, drop_all,
}
use senders_io.Buffer.{Buffer, advance_by, prefix, suffix}

-- the addresses p, p + 1, …, p + n - 1
unfoldable pub bytes : ℕ → ℕ → List ℕ
bytes p zero = []
bytes p (suc n) = p ∷ bytes (p + 1) n

abbrev pub content : Buffer → List ℕ
content b = bytes b.data_ptr b.size

pub length-bytes : (p n : ℕ) → length (bytes p n) ≡ n
unfolding bytes
length-bytes p zero = refl
length-bytes p (suc n) = ap suc (length-bytes (p + 1) n)

pub take-bytes : (k p n : ℕ) → k ≤ n → take k (bytes p n) ≡ bytes p k
unfolding bytes
take-bytes zero p n h = refl
take-bytes (suc k) p zero h = absurd (omega arith)
take-bytes (suc k) p (suc n) h = ap (λ l. p ∷ l) (take-bytes k (p + 1) n (omega arith))

-- stated up to equations, so that `omega` names the ends
pub drop-bytes :
    (k p n : ℕ) {q m : ℕ} → k ≤ n → q ≡ p + k → m ≡ n - k → drop k (bytes p n) ≡ bytes q m
unfolding bytes
drop-bytes zero p n {q} {m} h e f = rw (start, count)
  where
    start : p ≡ q
    start = omega arith

    count : n ≡ m
    count = omega arith
drop-bytes (suc k) p zero h e f = absurd (omega arith)
drop-bytes (suc k) p (suc n) h e f =
    drop-bytes k (p + 1) n (omega arith) (omega arith) (omega arith)

module _ (b : Buffer) (n : ℕ) (full : leb b.size n ≡ true) where
  content_short : length (content b) ≤ n
  content_short = omega (tests, length-bytes b.data_ptr b.size)

  nothing_before : b.size - n ≡ 0
  nothing_before = omega tests

-- `b += n` drops the first n bytes; `b.prefix(n)` keeps the first n bytes and `b.suffix(n)` the
-- last n bytes, or the whole buffer where it has fewer.
pub buffer_content :
    (b : Buffer) (n : ℕ)
    → (content (advance_by b n) ≡ drop n (content b))
      × (content (prefix b n) ≡ take n (content b))
      × (content (suffix b n) ≡ drop (b.size - n) (content b))
unfolding advance_by prefix suffix bytes
buffer_content b n = elim (Bool-cases (leb b.size n)) [
  | inl full ↦ rw full (
    sym (drop_all n (content b) (content_short b n full)),
    sym (take_all n (content b) (content_short b n full)),
    rw (nothing_before b n full),
  )
  | inr part ↦ rw part (
    sym (drop-bytes n b.data_ptr b.size (ground arith) refl refl),
    sym (take-bytes n b.data_ptr b.size (ground arith)),
    sym (drop-bytes (b.size - n) b.data_ptr b.size (omega arith) (ground arith) (ground arith)),
  )
]
