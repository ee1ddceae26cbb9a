-- ===== src/Intrusive/Queue.antt =====
-- The class intrusive_queue of source/sio/intrusive_queue.hpp. A method returns the new value of the
-- queue; `std::exchange(p, e)` is a read of p before the assignment. The loop of make_reversed runs
-- on fuel.
pub mod Methods
pub mod Reversed
use senders_io.Prelude.{ℕ, zero, suc, Bool, none, ◌==◌, if◌then◌else◌}
use senders_io.Intrusive.{Ptr, null, Method, pure, ◌>>=◌, ◌>>◌, get_next, set_next}

pub record Queue : Type 0 where
  pub head : Ptr
  pub tail : Ptr

abbrev pub queue : Ptr → Ptr → Queue
queue head tail = record { head = head; tail = tail }

-- the default constructor
abbrev pub empty_queue : Queue
empty_queue = queue null null

-- The move constructor: the new queue, and what it leaves of the other.
unfoldable pub move_from : Queue → Queue × Queue
move_from other = (other, empty_queue)

unfoldable pub empty : Queue → Bool
empty q = q.head == null

unfoldable pub front : Queue → Ptr
front q = q.head

unfoldable pub pop_front : Queue → Method (Ptr × Queue)
pop_front q = do
  let item = q.head
  head ← get_next q.head
  next ← get_next item
  pure (item, queue head (if next == null then null else q.tail))

unfoldable pub push_front : Queue → Ptr → Method Queue
push_front q item = do
  set_next item q.head
  pure (queue item (if q.tail == null then item else q.tail))

unfoldable pub push_back : Queue → Ptr → Method Queue
push_back q item = do
  set_next item null
  if q.tail == null
      then pure (queue item item)
      else (do set_next q.tail item; pure (queue q.head item))

-- `other` is passed by value, so what happens to it is not seen
unfoldable pub append : Queue → Queue → Method Queue
unfolding empty
append q other =
    if empty other
    then pure q
    else if empty q
    then pure (queue other.head other.tail)
    else (do set_next q.tail other.head; pure (queue q.head other.tail))

unfoldable pub prepend : Queue → Queue → Method Queue
unfolding empty
prepend q other = if empty other then pure q else do
  set_next other.tail q.head
  pure (queue other.head (if q.tail == null then other.tail else q.tail))

-- the while loop of make_reversed; `none` when the fuel runs out
unfoldable pub reverse_loop : ℕ → (new_head list : Ptr) → Method Ptr
reverse_loop zero new_head list = λ h. none
reverse_loop (suc k) new_head list =
    if list == null
    then pure new_head
    else do next ← get_next list; set_next list new_head; reverse_loop k list next

unfoldable pub make_reversed : ℕ → Ptr → Method Queue
unfolding reverse_loop
make_reversed fuel list = do new_head ← reverse_loop fuel null list; pure (queue new_head list)
