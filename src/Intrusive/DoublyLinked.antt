-- ===== src/Intrusive/DoublyLinked.antt =====
-- The class intrusive_list of source/sio/intrusive_list.hpp. A method returns the new value of the
-- list; `std::exchange(p, e)` is a read of p before the assignment.
pub mod Backed
pub mod Join
pub mod Unlink
pub mod Methods
pub mod Faults
use senders_io.Prelude.{Bool, ◌==◌, if◌then◌else◌}
use senders_io.Intrusive.{
  Ptr, null, Method, pure, ◌>>=◌, ◌>>◌, get_next, get_prev, set_next, set_prev,
}

pub record IntrusiveList : Type 0 where
  pub head : Ptr
  pub tail : Ptr

abbrev pub list : Ptr → Ptr → IntrusiveList
list head tail = record { head = head; tail = tail }

unfoldable pub list_empty : IntrusiveList → Bool
list_empty l = l.head == null

unfoldable pub list_pop_front : IntrusiveList → Method (Ptr × IntrusiveList)
list_pop_front l = do
  let item = l.head
  head ← get_next l.head
  next ← get_next item
  if next == null
      then pure (item, list head null)
      else (do set_prev next null; pure (item, list head l.tail))

unfoldable pub list_push_front : IntrusiveList → Ptr → Method IntrusiveList
list_push_front l item = do
  set_next item l.head
  if l.tail == null
      then (do next ← get_next item; set_prev next item; pure (list item item))
      else pure (list item l.tail)

unfoldable pub list_push_back : IntrusiveList → Ptr → Method IntrusiveList
list_push_back l item = do
  set_next item null
  set_prev item l.tail
  if l.tail == null
      then pure (list item item)
      else (do set_next l.tail item; pure (list l.head item))

-- the two halves of erase: what it does to the item before, and to the item after
unfoldable pub unlink_next : IntrusiveList → Ptr → Method Ptr
unlink_next l item = do
  prev ← get_prev item
  next ← get_next item
  if prev == null then pure next else (do set_next prev next; pure l.head)

unfoldable pub unlink_prev : IntrusiveList → Ptr → Method Ptr
unlink_prev l item = do
  next ← get_next item
  prev ← get_prev item
  if next == null then pure prev else (do set_prev next prev; pure l.tail)

unfoldable pub erase : IntrusiveList → Ptr → Method IntrusiveList
erase l item = do head ← unlink_next l item; tail ← unlink_prev l item; pure (list head tail)

unfoldable pub list_append : IntrusiveList → IntrusiveList → Method IntrusiveList
unfolding list_empty
list_append l other =
    if list_empty other
    then pure l
    else if list_empty l
    then pure (list other.head other.tail)
    else (do set_next l.tail other.head; pure (list l.head other.tail))

unfoldable pub list_prepend : IntrusiveList → IntrusiveList → Method IntrusiveList
unfolding list_empty
list_prepend l other = if list_empty other then pure l else do
  set_next other.tail l.head
  pure (list other.head (if l.tail == null then other.tail else l.tail))
