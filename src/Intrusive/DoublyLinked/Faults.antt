-- ===== src/Intrusive/DoublyLinked/Faults.antt =====
-- What push_front, append and prepend of an intrusive_list leave undone.
use senders_io.Prelude.{
  ◌≡◌, refl, sym, ◌∙◌, ◌≢◌, true, false, none, some, List, [], ◌∷◌, arith, ◌==◌, if◌then◌else◌,
}
use senders_io.Intrusive.{Ptr, null, Heap, write_next, Yields, ◌>>=◌, set_prev}
use senders_io.Intrusive.Steps.{not_null, set_next_ok, get_next_ok}
use senders_io.Intrusive.Chain.{has, last_or, head_or, Linked, Linked-write, last_or-ne-null}
use senders_io.Intrusive.DoublyLinked.{IntrusiveList, list, list_push_front, list_append, erase}
use senders_io.Intrusive.DoublyLinked.Unlink.{erase_run}
use senders_io.Intrusive.DoublyLinked.Join
use senders_io.Intrusive.DoublyLinked.Join.{join_next, join_prev}
use senders_io.Intrusive.DoublyLinked.Backed.{IsList}

same : (p : Ptr) → (p == p) ≡ true
same p = ground arith

-- `push_front` on a list without items is a fault: it writes the `prev` field of the item after the
-- new one, which is `nullptr`.
pub push_front_faults :
    (h : Heap) (l : IntrusiveList) (item : Ptr)
    → item ≢ null
    → IsList h l []
    → list_push_front l item h ≡ none
unfolding list_push_front set_prev
push_front_faults h l item real v = rw (
  set_next_ok item h real l.head,
  ◌>>=◌,
  v.tail,
  get_next_ok item (write_next h item l.head) real,
  same item,
  v.head,
)

-- `push_front` of a new item on a list with items links it in front of them, but the first of them
-- keeps `nullptr` as the item before it, so that the result is not a list of all the items.
pub push_front_misses_prev :
    (h : Heap) (l : IntrusiveList) (item x : Ptr) (xs : List Ptr)
    → item ≢ null
    → IsList h l (x ∷ xs)
    → has item (x ∷ xs) ≡ false
    → Yields (list_push_front l item) h (λ r h'.
      Linked h' (item ∷ x ∷ xs) null
      × (r.head ≡ item)
      × (h'.prev x ≡ null)
      × ¬ IsList h' r (item ∷ x ∷ xs))
unfolding list_push_front
push_front_misses_prev h l item x xs real v out = (
  list item l.tail,
  write_next h item l.head,
  rw (
    set_next_ok item h real l.head,
    ◌>>=◌,
    v.tail,
    not_null (last_or x xs) h (last_or-ne-null h x xs null v.chain),
  ),
  (
    (real, ground (arith, v.head), Linked-write h (x ∷ xs) null item l.head out v.chain),
    refl,
    v.back.0,
    λ w. real (sym w.back.1.0 ∙ v.back.0),
  ),
)

module _ (h : Heap) (l other : IntrusiveList) (x y : Ptr) (xs ys : List Ptr) where
  append_run :
      IsList h l (x ∷ xs)
      → IsList h other (y ∷ ys)
      → list_append l other h ≡ some (list l.head other.tail, write_next h l.tail other.head)
  unfolding list_append
  append_run v w = rw (
    not_null other.head h (λ e. w.chain.0 (sym w.head ∙ e)),
    not_null l.head h (λ e. v.chain.0 (sym v.head ∙ e)),
    if◌then◌else◌,
    set_next_ok l.tail h last_real other.head,
    ◌>>=◌,
  )
    where
      last_real : l.tail ≢ null
      last_real e = last_or-ne-null h x xs null v.chain (sym v.tail ∙ e)

-- `append` of a list with items to a list with items does not tell the first of the new items which
-- item is before it. When that item is erased next, the list begins with the item after it, and has
-- lost every item that it had before.
pub append_then_erase_loses :
    (h : Heap) (l other : IntrusiveList) (x y : Ptr) (xs ys : List Ptr)
    → IsList h l (x ∷ xs)
    → IsList h other (y ∷ ys)
    → has (last_or x xs) (y ∷ ys) ≡ false
    → Yields
        (list_append l other >>= λ r. erase r y)
        h
        (λ r h'. (r.head ≡ head_or null ys) × (h'.next (last_or x xs) ≡ y))
append_then_erase_loses h l other x y xs ys v w apart = (
  r,
  h2,
  rw (append_run h l other x y xs ys v w, ◌>>=◌, erase_run (list l.head other.tail) y h1 w.chain.0),
  (
    rw (w.back.0, unwritten) w.chain.1,
    Join.join_prev-next (join_next h1 (h1.prev y) (h1.next y)) (h1.prev y) (h1.next y)
          (last_or x xs)
        ∙ rw w.back.0 (rw (v.tail, same (last_or x xs)) w.head),
  ),
)
  where
    h1 : Heap
    h1 = write_next h l.tail other.head

    h2 : Heap
    h2 = join_prev (join_next h1 (h1.prev y) (h1.next y)) (h1.prev y) (h1.next y)

    r : IntrusiveList
    r =
        list (if h1.prev y == null then h1.next y else l.head)
          (if h1.next y == null then h1.prev y else other.tail)

    unwritten : (l.tail == y) ≡ false
    unwritten = ground (arith, v.tail)
