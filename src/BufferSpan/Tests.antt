-- ===== src/BufferSpan/Tests.antt =====
-- Runs over buffers in memory, and of what is proved of the operations.
use senders_io.Prelude.{◌≡◌, refl, inl, none, some, List, [], ◌∷◌, arith, length, add64, sub64}
use senders_io.Buffer.{Buffer, buffer}
use senders_io.Buffer.Content.{bytes}
use senders_io.BufferSpan.{Subspan, make_subspan, find_buffer_index_for_n, prefix, suffix, deref}
use senders_io.BufferSpan.Window.{content, IsValid, subspan}
use senders_io.BufferSpan.KeepsLast.{KeepsLast}
use senders_io.BufferSpan.Prefix.{TakesFirst, prefix-TakesFirst}
use senders_io.BufferSpan.Suffix.{suffix-KeepsLast}
use senders_io.BufferSpan.Iterator.{deref_last_faults}

-- two buffers of 4 and 6 bytes
abbrev pair : List Buffer
pair = buffer 100 4 ∷ buffer 200 6 ∷ []

-- from the second byte of the first to the third of the second: 6 bytes
abbrev middle : Subspan
middle = subspan pair 2 1 3

middle-IsValid : IsValid middle
unfolding bytes
middle-IsValid = record {
  in_bounds = (omega arith, omega arith, (omega arith, omega arith, omega arith));
  few_bytes = omega arith;
  few_buffers = omega arith;
}

-- three buffers of 4, 6 and 5 bytes
abbrev triple : Subspan
triple = subspan (buffer 100 4 ∷ buffer 200 6 ∷ buffer 300 5 ∷ []) 3 0 5

triple-IsValid : IsValid triple
unfolding bytes
triple-IsValid = record {
  in_bounds = (
    omega arith,
    omega arith,
    (omega arith, omega arith, (omega arith, omega arith, omega arith)),
  );
  few_bytes = omega arith;
  few_buffers = omega arith;
}

middle-bytes : length (content middle) ≡ 6
unfolding bytes
middle-bytes = refl

prefix_run : prefix middle 5 ≡ some (subspan pair 2 1 2)
unfolding prefix make_subspan find_buffer_index_for_n add64 sub64
prefix_run = refl

prefix-TakesFirst_example : TakesFirst middle 5
prefix-TakesFirst_example = prefix-TakesFirst middle 5 middle-IsValid (omega (arith, middle-bytes))

suffix-KeepsLast_example : KeepsLast middle 4 (suffix middle 4)
suffix-KeepsLast_example =
    suffix-KeepsLast middle 4 middle-IsValid (inl (omega arith)) (omega (arith, middle-bytes))

deref_last_faults_example : deref middle 1 ≡ none
deref_last_faults_example =
    deref_last_faults middle 1 (omega arith) (omega arith) (omega arith) (omega arith)
