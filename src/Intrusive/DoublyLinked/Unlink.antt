-- ===== src/Intrusive/DoublyLinked/Unlink.antt =====
-- The writes of erase in source/sio/intrusive_list.hpp.
use senders_io.Prelude.{
  ◌≡◌, refl, sym, ◌≢◌, inl, inr, true, false, some, List, [], ◌∷◌, ◌++◌, append-nil, ◌==◌,
  if◌then◌else◌, Bool-cases,
}
use senders_io.Intrusive.{Ptr, null, Heap, ◌>>=◌}
use senders_io.Intrusive.Steps.{
  real_of_test, not_null, set_next_ok, get_next_ok, set_prev_ok, get_prev_ok,
}
use senders_io.Intrusive.Chain.{has, last_or, head_or, Linked, last_or-ne-null, last_or-append}
use senders_io.Intrusive.DoublyLinked.{IntrusiveList, list, unlink_next, unlink_prev, erase}
use senders_io.Intrusive.DoublyLinked.Join
use senders_io.Intrusive.DoublyLinked.Join.{join_next, join_prev}

module _ (l : IntrusiveList) (item : Ptr) (h : Heap) (real : item ≢ null) where
  unlink_next_run :
      unlink_next l item h
      ≡ some (
        (if h.prev item == null then h.next item else l.head),
        join_next h (h.prev item) (h.next item),
      )
  unfolding unlink_next
  unlink_next_run = elim (Bool-cases (h.prev item == null)) [
    | inl first ↦ rw (get_prev_ok item h real, ◌>>=◌, get_next_ok item h real, first)
    | inr later ↦ rw (
      get_prev_ok item h real,
      ◌>>=◌,
      get_next_ok item h real,
      later,
      set_next_ok (h.prev item) h (real_of_test (h.prev item) later) (h.next item),
    )
  ]

  unlink_prev_run :
      unlink_prev l item h
      ≡ some (
        (if h.next item == null then h.prev item else l.tail),
        join_prev h (h.prev item) (h.next item),
      )
  unfolding unlink_prev
  unlink_prev_run = elim (Bool-cases (h.next item == null)) [
    | inl last ↦ rw (get_next_ok item h real, ◌>>=◌, get_prev_ok item h real, last)
    | inr before ↦ rw (
      get_next_ok item h real,
      ◌>>=◌,
      get_prev_ok item h real,
      before,
      set_prev_ok (h.next item) h (real_of_test (h.next item) before) (h.prev item),
    )
  ]

module _ (l : IntrusiveList) (item : Ptr) (h : Heap) (real : item ≢ null) where
  pub erase_run :
      erase l item h
      ≡ some (
        list
            (if h.prev item == null then h.next item else l.head)
            (if h.next item == null then h.prev item else l.tail),
        join_prev (join_next h (h.prev item) (h.next item)) (h.prev item) (h.next item),
      )
  unfolding erase
  erase_run = rw (
    unlink_next_run l item h real,
    ◌>>=◌,
    unlink_prev_run l item (join_next h (h.prev item) (h.next item)) real,
    Join.join_next-prev h (h.prev item) (h.next item) item,
    Join.join_next-next h (h.prev item) item,
  )

-- where a list without its item x begins and ends
pub head_after :
    (h : Heap) (xs ys : List Ptr) (x n : Ptr)
    → Linked h xs n
    → (if last_or null xs == null then head_or null ys else head_or x xs) ≡ head_or null (xs ++ ys)
head_after h [] ys x n k = refl
head_after h (z ∷ xs) ys x n k = rw (not_null (last_or z xs) h (last_or-ne-null h z xs n k))

pub tail_after :
    (h : Heap) (xs ys : List Ptr) (x : Ptr)
    → Linked h ys null
    → (if head_or null ys == null then last_or null xs else last_or x ys) ≡ last_or null (xs ++ ys)
tail_after h xs [] x k = rw (append-nil xs)
tail_after h xs (y ∷ ys) x k = rw (not_null y h k.0) (sym (last_or-append null xs (y ∷ ys)))

pub flip_apart :
    (xs ys : List Ptr)
    → ((a : Ptr) → has a xs ≡ true → has a ys ≡ false)
    → (a : Ptr) → has a ys ≡ true
    → has a xs ≡ false
flip_apart xs ys apart a i = elim (Bool-cases (has a xs)) [ inl e ↦ cc (apart a e) | inr e ↦ e ]
