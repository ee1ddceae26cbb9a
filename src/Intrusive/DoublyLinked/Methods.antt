-- ===== src/Intrusive/DoublyLinked/Methods.antt =====
-- push_back, pop_front and erase keep an intrusive_list a list of the items that it should hold.
use mathlib.Core.Path.{subst₂}
use senders_io.Prelude.{
  ◌≡◌, refl, sym, ap, ◌∙◌, ◌≢◌, true, false, some, List, [], ◌∷◌, ◌++◌, arith, ◌==◌, if◌then◌else◌,
}
use senders_io.Intrusive.{Ptr, null, Heap, write_next, write_prev, Yields, ◌>>=◌}
use senders_io.Intrusive.Steps.{not_null, set_next_ok, get_next_ok, set_prev_ok}
use senders_io.Intrusive.Chain.{
  has, last_or, head_or, Linked, Linked-write, Linked-append, Linked-relink, ne_of_has, has-last_or,
  last_or-ne-null, last_or-append, Distinct-append, head_or-append,
}
use senders_io.Intrusive.DoublyLinked.{IntrusiveList, list, list_pop_front, list_push_back, erase}
use senders_io.Intrusive.DoublyLinked.Join
use senders_io.Intrusive.DoublyLinked.Join.{join_next, join_prev}
use senders_io.Intrusive.DoublyLinked.Backed.{
  Backed, IsList, Linked-write_prev, Backed-write_next, Backed-write, Backed-append, Backed-split,
  Linked-split, Parts, Distinct-Parts,
}
use senders_io.Intrusive.DoublyLinked.Unlink.{erase_run, head_after, tail_after, flip_apart}

-- `erase` of an item of the list takes it out, and keeps the others in order.
pub erase-IsList :
    (h : Heap) (l : IntrusiveList) (item : Ptr) (xs ys : List Ptr)
    → IsList h l (xs ++ item ∷ ys)
    → Yields (erase l item) h (λ r h'. IsList h' r (xs ++ ys))
erase-IsList h l item xs ys v = (
  r,
  h2,
  subst₂
      (λ p n.
        erase l item h
        ≡ some (
          list (if p == null then n else l.head) (if n == null then p else l.tail),
          join_prev (join_next h p n) p n,
        ))
      back_item next_item (erase_run l item h real),
  record {
    chain = Join.join_prev-Linked h1 p n null (xs ++ ys) (
        Linked-append h1 xs ys null (Join.join_next-Linked_front h xs item n parts.front chains.0)
          (Join.join_next-Linked_rest h xs ys null n apart chains.1.2));
    back =
        Backed-append h2 null xs ys
          (Join.join_prev-Backed_front h1 p null xs ys (flip_apart xs ys apart)
            (Join.join_next-Backed h p n null xs backs.0))
          (Join.join_prev-Backed_rest h1 p item ys parts.rest.1
            (Join.join_next-Linked_rest h xs ys null n apart chains.1.2)
            (Join.join_next-Backed h p n item ys backs.1.1));
    head =
        ap (λ g. if p == null then n else g) (v.head ∙ head_or-append null xs (item ∷ ys))
        ∙ head_after h xs ys item item chains.0;
    tail =
        ap (λ t. if n == null then p else t) (v.tail ∙ last_or-append null xs (item ∷ ys))
        ∙ tail_after h xs ys item chains.1.2;
    distinct = Distinct-append xs ys parts.front parts.rest.1 apart;
  },
)
  where
    p : Ptr
    p = last_or null xs

    n : Ptr
    n = head_or null ys

    r : IntrusiveList
    r = list (if p == null then n else l.head) (if n == null then p else l.tail)

    h1 : Heap
    h1 = join_next h p n

    h2 : Heap
    h2 = join_prev h1 p n

    chains : Linked h xs item × Linked h (item ∷ ys) null
    chains = Linked-split h xs (item ∷ ys) null v.chain

    backs : Backed h null xs × Backed h p (item ∷ ys)
    backs = Backed-split h null xs (item ∷ ys) v.back

    real : item ≢ null
    real = chains.1.0

    next_item : h.next item ≡ n
    next_item = chains.1.1

    back_item : h.prev item ≡ p
    back_item = backs.1.0

    parts : Parts xs (item ∷ ys)
    parts = Distinct-Parts xs (item ∷ ys) v.distinct

    apart : (a : Ptr) → has a xs ≡ true → has a ys ≡ false
    apart a i = ground (arith, parts.apart a i)

-- `push_back` of a new item puts it behind the others.
pub push_back-IsList :
    (h : Heap) (l : IntrusiveList) (item : Ptr) (xs : List Ptr)
    → item ≢ null
    → IsList h l xs
    → has item xs ≡ false
    → Yields (list_push_back l item) h (λ r h'. IsList h' r (xs ++ item ∷ []))
unfolding list_push_back
push_back-IsList h l item [] real v out = (
  list item item,
  write_prev (write_next h item null) item l.tail,
  rw (
    set_next_ok item h real null,
    ◌>>=◌,
    set_prev_ok item (write_next h item null) real l.tail,
    v.tail,
  ),
  record {
    chain = (real, ground arith, tt);
    back = (ground (arith, v.tail), tt);
    head = refl;
    tail = refl;
    distinct = (refl, tt);
  },
)
push_back-IsList h l item (x ∷ xs) real v out = (
  list l.head item,
  h3,
  rw (
    set_next_ok item h real null,
    ◌>>=◌,
    set_prev_ok item (write_next h item null) real l.tail,
    v.tail,
    not_null (last_or x xs) h last_real,
    if◌then◌else◌,
    ◌>>=◌,
    set_next_ok (last_or x xs) h2 last_real item,
  ),
  record {
    chain =
        Linked-append h3 (x ∷ xs) (item ∷ []) null
          (Linked-relink h2 x xs null item v.distinct (
            Linked-write_prev h1 (x ∷ xs) null item (last_or x xs)
              (Linked-write h (x ∷ xs) null item null out v.chain)))
          (real, rw other (ground arith), tt);
    back =
        Backed-append h3 null (x ∷ xs) (item ∷ [])
          (Backed-write_next h2 null (x ∷ xs) (last_or x xs) item (
            Backed-write h1 null (x ∷ xs) item (last_or x xs) out
              (Backed-write_next h null (x ∷ xs) item null v.back)))
          (ground arith, tt);
    head = v.head;
    tail = sym (last_or-append x xs (item ∷ []));
    distinct =
        Distinct-append (x ∷ xs) (item ∷ []) v.distinct (refl, tt)
          (λ a i. rw (ne_of_has a item (x ∷ xs) i out));
  },
)
  where
    h1 : Heap
    h1 = write_next h item null

    h2 : Heap
    h2 = write_prev h1 item (last_or x xs)

    h3 : Heap
    h3 = write_next h2 (last_or x xs) item

    last_real : last_or x xs ≢ null
    last_real = last_or-ne-null h x xs null v.chain

    other : (last_or x xs == item) ≡ false
    other = ne_of_has (last_or x xs) item (x ∷ xs) (has-last_or x xs) out

-- `pop_front` of a list that is not empty gives its first item, and leaves the others.
pub pop_front-IsList :
    (h : Heap) (l : IntrusiveList) (x : Ptr) (xs : List Ptr)
    → IsList h l (x ∷ xs)
    → Yields (list_pop_front l) h (λ (item, r) h'. (item ≡ x) × IsList h' r xs)
unfolding list_pop_front
pop_front-IsList h l x [] v = (
  (x, list null null),
  h,
  rw (
    v.head,
    get_next_ok x h v.chain.0,
    ◌>>=◌,
    v.head,
    get_next_ok x h v.chain.0,
    ◌>>=◌,
    v.chain.1,
    v.head,
  ),
  (refl, record { chain = tt; back = tt; head = refl; tail = refl; distinct = tt }),
)
pop_front-IsList h l x (y ∷ ys) v = (
  (x, list y l.tail),
  write_prev h y null,
  rw (
    v.head,
    get_next_ok x h v.chain.0,
    ◌>>=◌,
    v.head,
    get_next_ok x h v.chain.0,
    ◌>>=◌,
    v.chain.1,
    not_null y h v.chain.2.0,
    if◌then◌else◌,
    ◌>>=◌,
    set_prev_ok y h v.chain.2.0 null,
    v.head,
    v.chain.1,
  ),
  (
    refl,
    record {
      chain = Linked-write_prev h (y ∷ ys) null y null v.chain.2;
      back = (ground arith, Backed-write h y ys y null v.distinct.1.0 v.back.1.1);
      head = refl;
      tail = v.tail;
      distinct = v.distinct.1;
    },
  ),
)
