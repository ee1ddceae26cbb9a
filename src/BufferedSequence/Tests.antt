-- ===== src/BufferedSequence/Tests.antt =====
-- Sequences of transfers, and what is proved of them.
use senders_io.Prelude.{ℕ, ◌+◌, ◌≤◌, ◌≡◌, refl, some, [], ◌∷◌, arith, drop}
use senders_io.Buffer.{buffer}
use senders_io.BufferedSequence.{
  BufferSpan, VectorSpan, going, completed, transferred, ended, run, advance_vector,
}
use senders_io.BufferedSequence.Single.{moved, run_completes, end_of_file_goes_on}
use senders_io.BufferedSequence.Vectored.{
  all_content, advance_vector-content, advance_vector_falls_behind,
}

-- 10 bytes at 1000, from the place 300 of a file
abbrev ten : BufferSpan
ten = record { buffer = buffer 1000 10; offset = some 300 }

run_completes_example :
    run (transferred 3 ∷ transferred 0 ∷ transferred 7 ∷ ended ∷ []) (going ten)
    ≡ completed (moved ten 10)
run_completes_example = run_completes ten (3 ∷ 0 ∷ []) 7 (ended ∷ []) (omega arith) (omega arith)

end_of_file_goes_on_example :
    run (transferred 0 ∷ transferred 0 ∷ transferred 0 ∷ []) (going ten) ≡ going ten
end_of_file_goes_on_example = end_of_file_goes_on ten 3 (omega arith)

abbrev two : VectorSpan
two = record { buffers = buffer 100 4 ∷ buffer 200 6 ∷ []; offset = some 300 }

advance_vector-content_example :
    all_content (advance_vector 5 two).buffers ≡ drop 5 (all_content two.buffers)
advance_vector-content_example = advance_vector-content two 5

-- after 5 bytes the offset is 301, not 305
advance_run : (advance_vector 5 two).offset ≡ some 301
unfolding advance_vector
advance_run = refl

advance_vector_falls_behind_example :
    (after : ℕ) × ((advance_vector 5 two).offset ≡ some after) × (after + 4 ≤ 305)
advance_vector_falls_behind_example =
    advance_vector_falls_behind (buffer 100 4) (buffer 200 6 ∷ []) 300 5 (omega arith) (omega arith)
