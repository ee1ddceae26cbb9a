-- ===== src/BufferSpan.antt =====
-- source/sio/const_buffer_span.hpp, source/sio/const_buffer_span.cpp (and their twins
-- mutable_buffer_span.*, the same text over mutable_buffer) and source/sio/buffer_algorithms.hpp.
-- A pointer to buffers is the list of the buffers from it on, `nullptr` the empty list; an access
-- outside that list is the fault `none`. A moved pointer is what is left of the list.
pub mod Window
pub mod Size
pub mod Cut
pub mod Prefix
pub mod KeepsLast
pub mod SuffixLoop
pub mod Suffix
pub mod Whole
pub mod Iterator
pub mod Step
pub mod Tests
use senders_io.Prelude.{
  ℕ, zero, suc, ◌-◌, ◌&&◌, Option, none, some, List, [], ◌∷◌, leb, ◌==◌, if◌then◌else◌, length,
  get_elem?, take, drop, size_max, add64, sub64, ◌>>=◌,
}
use senders_io.Buffer.{Buffer}
use senders_io.Buffer

-- const_buffer_subspan
pub record Subspan : Type 0 where
  pub buffers : List Buffer
  pub size : ℕ
  pub i0 : ℕ
  pub i_n : ℕ

-- const_buffer_span
pub record Span : Type 0 where
  pub buffers : List Buffer
  pub size : ℕ

-- the private constructor, which empties a subspan of no bytes in one buffer
unfoldable pub make_subspan : List Buffer → ℕ → ℕ → ℕ → Subspan
make_subspan pointer size i0 i_n =
    if size == 1 && i0 == i_n
    then record { buffers = []; size = 0; i0 = i0; i_n = i_n }
    else record { buffers = pointer; size = size; i0 = i0; i_n = i_n }

-- the constructor from a span
unfoldable pub of_span : Span → Option Subspan
of_span span =
    if leb 1 span.size
    then (do
      last ← get_elem? span.buffers (span.size - 1)
      some (record { buffers = span.buffers; size = span.size; i0 = 0; i_n = last.size }))
    else some (record { buffers = span.buffers; size = span.size; i0 = 0; i_n = 0 })

-- the sizes of the buffers of a range-for loop, added up with wrap-around
unfoldable pub add_sizes : ℕ → List Buffer → ℕ
add_sizes size [] = size
add_sizes size (b ∷ bs) = add_sizes (add64 size b.size) bs

-- const_buffer_subspan::buffer_size
unfoldable pub buffer_size : Subspan → Option ℕ
buffer_size s = if s.size == 0 then some 0 else if s.size == 1 then some (sub64 s.i_n s.i0) else do
  first ← get_elem? s.buffers 0
  let rest = take (s.size - 2) (drop 1 s.buffers)
  some (add64 (add_sizes (sub64 first.size s.i0) rest) s.i_n)

-- The loop of find_buffer_index_for_n. `back` is `buffers.back()`, a fault on an empty span.
unfoldable pub find_loop : Option Buffer → List Buffer → ℕ → ℕ → Option (ℕ × ℕ)
find_loop back [] i n = do last ← back; some (sub64 i 1, last.size)
find_loop back (b ∷ bs) i n =
    if leb n b.size then some (i, n) else find_loop back bs (add64 i 1) (sub64 n b.size)

unfoldable pub last_of : List Buffer → Option Buffer
last_of [] = none
last_of (b ∷ []) = some b
last_of (b ∷ c ∷ bs) = last_of (c ∷ bs)

unfoldable pub find_buffer_index_for_n : List Buffer → ℕ → Option (ℕ × ℕ)
unfolding find_loop last_of
find_buffer_index_for_n buffers n = find_loop (last_of buffers) buffers 0 n

-- const_buffer_subspan::prefix
unfoldable pub prefix : Subspan → ℕ → Option Subspan
prefix s n = if s.size == 0 then some s else do
  first ← get_elem? s.buffers 0
  let first_length = sub64 first.size s.i0
  if leb n first_length then some (make_subspan s.buffers 1 s.i0 (add64 n s.i0)) else do
    let buffers = take (s.size - 1) (drop 1 s.buffers)
    (index, rest) ← find_buffer_index_for_n buffers (sub64 n first_length)
    some (make_subspan s.buffers (add64 index 2) s.i0 rest)

-- The loop of const_buffer_subspan::suffix, from i = size - 2 down; `length` is the size of the
-- first buffer of the subspan, as the source has it.
unfoldable pub suffix_loop : Subspan → ℕ → ℕ → Option Subspan
suffix_loop s zero n = do
  first ← get_elem? s.buffers 0
  let first_length = sub64 first.size s.i0
  if leb n first_length
      then some (make_subspan s.buffers s.size (sub64 (add64 s.i0 first_length) n) s.i_n)
      else some s
suffix_loop s (suc i) n = do
  buffer ← get_elem? s.buffers (suc i)
  first ← get_elem? s.buffers 0
  let length = first.size
  let next = suffix_loop s i (sub64 n buffer.size)
  if leb n length
      then some (make_subspan (drop (suc i) s.buffers) (s.size - suc i) (sub64 length n) length)
      else next

-- const_buffer_subspan::suffix
unfoldable pub suffix : Subspan → ℕ → Option Subspan
unfolding suffix_loop
suffix s n =
    if s.size == 0
    then some s
    else if s.size == 1
    then (let length = sub64 s.i_n s.i0 in
        some (
          if leb n length
          then make_subspan s.buffers 1 (sub64 (add64 s.i0 length) n) s.i_n
          else make_subspan s.buffers 1 s.i0 s.i_n))
    else if leb n s.i_n
    then some (make_subspan (drop (s.size - 1) s.buffers) 1 (sub64 s.i_n n) s.i_n)
    else suffix_loop s (s.size - 2) (sub64 n s.i_n)

-- const_iterator::operator*, at an index of the subspan
unfoldable pub deref : Subspan → ℕ → Option Buffer
deref s index_ =
    let index : ℕ = if leb (sub64 s.size 1) index_ then size_max else index_ in
    if index == 0
    then (do b ← get_elem? s.buffers index; some (Buffer.plus b s.i0))
    else if index == size_max
    then (do b ← get_elem? s.buffers index; some (Buffer.prefix b s.i_n))
    else get_elem? s.buffers index

-- const_buffer_span::buffer_size, prefix and suffix
unfoldable pub span_buffer_size : Span → Option ℕ
span_buffer_size span = do subspan ← of_span span; buffer_size subspan

unfoldable pub span_prefix : Span → ℕ → Option Subspan
span_prefix span n = do subspan ← of_span span; prefix subspan n

unfoldable pub span_suffix : Span → ℕ → Option Subspan
span_suffix span n = do subspan ← of_span span; suffix subspan n

-- without_prefix of buffer_algorithms.hpp, at a subspan
unfoldable pub without_prefix : Subspan → ℕ → Option Subspan
without_prefix sequence prefix_size = do
  size ← buffer_size sequence
  let rest = if leb prefix_size size then size - prefix_size else 0
  suffix sequence rest
