-- ===== src/BufferedSequence/Single.antt =====
-- The transfers over a single buffer go on without a gap and without an overlap.
use senders_io.Prelude.{
  ℕ, zero, suc, ◌+◌, ◌-◌, ◌≤◌, ◌<◌, ◌≡◌, refl, sym, ap, ◌∙◌, inl, inr, true, false, Option, none,
  some, List, [], ◌∷◌, ◌++◌, map, arith, leb, ◌==◌, Bool-cases, replicate,
}
use senders_io.Buffer.{Buffer, buffer}
use senders_io.Buffer
use senders_io.BufferedSequence.{
  BufferSpan, add_offset, advance, going, completed, Item, transferred, after_item, next_or_done,
  run,
}

abbrev pub sum : List ℕ → ℕ
sum [] = 0
sum (n ∷ ns) = n + sum ns

-- the state k bytes behind the start
abbrev pub moved : BufferSpan → ℕ → BufferSpan
moved s k = record {
  buffer = buffer (s.buffer.data_ptr + k) (s.buffer.size - k);
  offset = add_offset s.offset k;
}

add_offset-twice : (o : Option ℕ) (m n : ℕ) → add_offset (add_offset o m) n ≡ add_offset o (m + n)
add_offset-twice none m n = refl
add_offset-twice (some offset) m n = ap some (omega arith)

buffer_at : {p q m n : ℕ} → p ≡ q → m ≡ n → buffer p m ≡ buffer q n
buffer_at e f i = buffer (e i) (f i)

module _ (s : BufferSpan) where
  moved_parts :
      (k : ℕ) (b : Buffer) (o : Option ℕ)
      → b ≡ buffer (s.buffer.data_ptr + k) (s.buffer.size - k)
      → o ≡ add_offset s.offset k
      → record { buffer = b; offset = o } ≡ moved s k
  moved_parts k b o e f i = record { buffer = e i; offset = f i }

  advance-moved : (k n : ℕ) → k + n ≤ s.buffer.size → advance n (moved s k) ≡ moved s (k + n)
  unfolding advance Buffer.advance_by
  advance-moved k n fits = elim (Bool-cases (leb (s.buffer.size - k) n)) [
    | inl all ↦
        moved_parts (k + n) (Buffer.advance_by (moved s k).buffer n)
          (add_offset (add_offset s.offset k) n)
          (rw all (buffer_at (ground (arith, all, fits)) (ground (arith, all, fits))))
          (add_offset-twice s.offset k n)
    | inr part ↦
        moved_parts (k + n) (Buffer.advance_by (moved s k).buffer n)
          (add_offset (add_offset s.offset k) n) (rw part (buffer_at (omega arith) (omega arith)))
          (add_offset-twice s.offset k n)
  ]

  moved-zero : s ≡ moved s 0
  moved-zero =
      moved_parts 0 s.buffer s.offset (buffer_at (omega arith) (omega arith)) (same s.offset)
    where
      same : (o : Option ℕ) → o ≡ add_offset o 0
      same none = refl
      same (some offset) = ap some (omega arith)

  after-moved :
      (k n : ℕ)
      → k + n < s.buffer.size
      → after_item (transferred n) (moved s k) ≡ going (moved s (k + n))
  unfolding after_item next_or_done Buffer.empty
  after-moved k n fits = ap next_or_done (advance-moved k n (omega arith)) ∙ rw left refl
    where
      left : (s.buffer.size - (k + n) == 0) ≡ false
      left = ground arith

  after-last :
      (k n : ℕ)
      → k + n ≡ s.buffer.size
      → after_item (transferred n) (moved s k) ≡ completed (moved s s.buffer.size)
  unfolding after_item next_or_done Buffer.empty
  after-last k n all =
      ap next_or_done (advance-moved k n (omega arith))
      ∙ rw gone (ap (λ m. completed (moved s m)) all)
    where
      gone : (s.buffer.size - (k + n) == 0) ≡ true
      gone = ground arith

  run-moved :
      (ns : List ℕ) (k n : ℕ) (rest : List Item)
      → k + sum ns < s.buffer.size
      → k + sum ns + n ≡ s.buffer.size
      → run (map transferred ns ++ transferred n ∷ rest) (going (moved s k))
        ≡ completed (moved s s.buffer.size)
  unfolding run
  run-moved [] k n rest fits all = ap (run rest) (after-last k n (omega arith)) ∙ run-completed rest
    where
      run-completed :
          (items : List Item)
          → run items (completed (moved s s.buffer.size)) ≡ completed (moved s s.buffer.size)
      run-completed [] = refl
      run-completed (item ∷ items) = refl
  run-moved (m ∷ ns) k n rest fits all =
      ap (run (map transferred ns ++ transferred n ∷ rest)) (after-moved k m (omega arith))
      ∙ run-moved ns (k + m) n rest (omega arith) (omega arith)

  -- Transfers that together move just the buffer, the last of which moves what is left, complete the
  -- sequence, at the end of the buffer and with the file offset moved by its size: each transfer
  -- started where the one before had ended, and no item follows.
  pub run_completes :
      (ns : List ℕ) (n : ℕ) (rest : List Item)
      → sum ns < s.buffer.size
      → sum ns + n ≡ s.buffer.size
      → run (map transferred ns ++ transferred n ∷ rest) (going s)
        ≡ completed (moved s s.buffer.size)
  run_completes ns n rest fits all =
      ap (λ t. run (map transferred ns ++ transferred n ∷ rest) (going t)) moved-zero
      ∙ run-moved ns 0 n rest (omega arith) (omega arith)

  -- Transfers of no bytes, which a read reports at the end of a file, change nothing and never
  -- complete a sequence whose buffer is not empty: however many there are, it goes on.
  pub end_of_file_goes_on :
      (k : ℕ) → 0 < s.buffer.size → run (map transferred (replicate k 0)) (going s) ≡ going s
  unfolding run
  end_of_file_goes_on zero some_bytes = refl
  end_of_file_goes_on (suc k) some_bytes =
      ap (run (map transferred (replicate k 0))) (
        ap (after_item (transferred 0)) moved-zero
        ∙ after-moved 0 0 (omega arith)
        ∙ ap going (sym moved-zero))
      ∙ end_of_file_goes_on k some_bytes
