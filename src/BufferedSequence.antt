-- ===== src/BufferedSequence.antt =====
-- source/sio/sequence/buffered_sequence.hpp: a sequence of transfers, each of which starts where the
-- one before has ended. The transfers themselves are an argument: the number of bytes that each one
-- reports, and how the item is answered. The file offset is none for -1, which stands for no offset.
pub mod Single
pub mod Vectored
pub mod Tests
use senders_io.Prelude.{ℕ, ◌+◌, ◌-◌, Option, none, some, List, [], ◌∷◌, ltb, ◌==◌, if◌then◌else◌}
use senders_io.Buffer.{Buffer}
use senders_io.Buffer

-- buffer_span of a single buffer
pub record BufferSpan : Type 0 where
  pub buffer : Buffer
  pub offset : Option ℕ

-- buffer_span of a std::span of buffers, which it also writes to
pub record VectorSpan : Type 0 where
  pub buffers : List Buffer
  pub offset : Option ℕ

-- offset_ += n, unless it is -1; an off_t stays below 2^63
abbrev pub add_offset : Option ℕ → ℕ → Option ℕ
add_offset none n = none
add_offset (some offset) n = some (offset + n)

unfoldable pub advance : ℕ → BufferSpan → BufferSpan
unfolding Buffer.advance_by
advance n s = record { buffer = Buffer.advance_by s.buffer n; offset = add_offset s.offset n }

-- the loop of advance over the buffers, and what it leaves of n
unfoldable pub advance_loop : List Buffer → ℕ → List Buffer × ℕ
unfolding Buffer.advance_by
advance_loop [] n = ([], n)
advance_loop (b ∷ bs) n =
    let later = advance_loop bs (n - b.size) in
    if n == 0 then (b ∷ bs, n) else if ltb n b.size then (Buffer.advance_by b n ∷ bs, n) else later

unfoldable pub advance_vector : ℕ → VectorSpan → VectorSpan
unfolding advance_loop
advance_vector n s =
    let (buffers, rest) = advance_loop s.buffers n in
    record { buffers = buffers; offset = add_offset s.offset rest }

-- How the operation goes on after an item: with a transfer of the rest, or it has completed.
pub data Progress : Type 0 where
  going : BufferSpan → Progress
  completed : BufferSpan → Progress

-- what an item comes to: n bytes and a wish for more, or the end of the sequence
pub data Item : Type 0 where
  transferred : ℕ → Item
  ended : Item

-- next_receiver::set_value: whether anything is left to transfer
unfoldable pub next_or_done : BufferSpan → Progress
unfolding Buffer.empty
next_or_done s = if Buffer.empty s.buffer then completed s else going s

-- item_receiver::set_value, then next_receiver::set_value or set_stopped
unfoldable pub after_item : Item → BufferSpan → Progress
unfolding advance next_or_done
after_item (transferred n) s = next_or_done (advance n s)
after_item ended s = completed s

-- the items of a sequence in turn; no item follows when the operation has completed
unfoldable pub run : List Item → Progress → Progress
unfolding after_item
run [] p = p
run (item ∷ items) (going s) = run items (after_item item s)
run (item ∷ items) (completed s) = completed s
