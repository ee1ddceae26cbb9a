-- ===== src/BufferSpan/Step.antt =====
-- const_iterator of source/sio/const_buffer_span.cpp: the constructor and the steps. An iterator is
-- a subspan and an index.
use senders_io.Prelude.{ℕ, zero, suc, ◌<◌, ◌≡◌, refl, ap, arith, size_mod, add64, sub64}
use senders_io.BufferSpan.{Subspan}

record SubspanIterator : Type 0 where
  parent : Subspan
  index_ : ℕ

abbrev iterator : Subspan → ℕ → SubspanIterator
iterator parent index = record { parent = parent; index_ = index }

-- const_buffer_subspan::begin and end
unfoldable begin_of : Subspan → SubspanIterator
begin_of s = iterator s 0

unfoldable end_of : Subspan → SubspanIterator
end_of s = iterator s s.size

-- ++it and --it, with the wrap-around of size_t
unfoldable increment : SubspanIterator → SubspanIterator
increment it = record it { index_ = add64 it.index_ 1 }

unfoldable decrement : SubspanIterator → SubspanIterator
decrement it = record it { index_ = sub64 it.index_ 1 }

-- it++ and it--: what they return, and the iterator afterwards
unfoldable post_increment : SubspanIterator → SubspanIterator × SubspanIterator
unfolding increment
post_increment it = (it, increment it)

unfoldable post_decrement : SubspanIterator → SubspanIterator × SubspanIterator
unfolding decrement
post_decrement it = (it, decrement it)

-- `n` times ++it
unfoldable repeat_increment : ℕ → SubspanIterator → SubspanIterator
unfolding increment
repeat_increment zero it = it
repeat_increment (suc n) it = increment (repeat_increment n it)

-- Decrementing takes back an increment at an index of std::size_t.
decrement-increment : (it : SubspanIterator) → it.index_ < size_mod → decrement (increment it) ≡ it
unfolding decrement increment add64 sub64
decrement-increment it small = ap (iterator it.parent) (omega arith)

repeat_index : (s : Subspan) (n : ℕ) → n < size_mod → repeat_increment n (begin_of s) ≡ iterator s n
unfolding repeat_increment begin_of add64
repeat_index s zero small = refl
repeat_index s (suc n) small = rw (repeat_index s n (omega arith)) (ap (iterator s) (omega arith))

-- Increments lead from begin to end in as many steps as the subspan has buffers.
begin_reaches_end :
    (s : Subspan) → s.size < size_mod → repeat_increment s.size (begin_of s) ≡ end_of s
unfolding end_of
begin_reaches_end s small = repeat_index s s.size small
