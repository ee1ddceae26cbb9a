-- ===== src/Intrusive/Queue/Methods.antt =====
-- The methods of intrusive_queue keep it a queue of the items that they should hold.
use mathlib.Core.Path.{subst₂}
use senders_io.Prelude.{
  ◌≡◌, refl, sym, ap, ◌∙◌, ◌≢◌, true, false, none, some, List, [], ◌∷◌, ◌++◌, append-nil, arith,
  ◌==◌, if◌then◌else◌,
}
use senders_io.Intrusive.{Ptr, null, Heap, write_next, Yields, ◌>>=◌, get_next}
use senders_io.Intrusive.Steps.{not_null, set_next_ok, get_next_ok}
use senders_io.Intrusive.Chain.{
  has, Distinct, last_or, head_or, Linked, Linked-write, Linked-append, Linked-relink, ne_of_has,
  has-last_or, last_or-ne-null, last_or-append, Distinct-append,
}
use senders_io.Intrusive.Queue.{
  Queue, queue, empty_queue, pop_front, push_front, push_back, append, prepend,
}

-- The queue holds the items xs in this order.
pub record IsQueue (h : Heap) (q : Queue) (xs : List Ptr) : Type 0 where
  pub chain : Linked h xs null
  pub head : q.head ≡ head_or null xs
  pub tail : q.tail ≡ last_or null xs
  pub distinct : Distinct xs

pub empty_queue-IsQueue : (h : Heap) → IsQueue h empty_queue []
empty_queue-IsQueue h = record { chain = tt; head = refl; tail = refl; distinct = tt }

module _ (h : Heap) (q : Queue) (item : Ptr) (real : item ≢ null) where
  push_back_cases :
      (xs : List Ptr)
      → IsQueue h q xs
      → has item xs ≡ false
      → Yields (push_back q item) h (λ r h'. IsQueue h' r (xs ++ item ∷ []))
  unfolding push_back
  push_back_cases [] v out = (
    queue item item,
    write_next h item null,
    rw (set_next_ok item h real null, ◌>>=◌, v.tail),
    record { chain = (real, ground arith, tt); head = refl; tail = refl; distinct = (refl, tt) },
  )
  push_back_cases (x ∷ xs) v out = (
    queue q.head item,
    h2,
    rw (
      set_next_ok item h real null,
      ◌>>=◌,
      not_empty,
      v.tail,
      set_next_ok (last_or x xs) h1 last_real item,
    ),
    record {
      chain =
          Linked-append h2 (x ∷ xs) (item ∷ []) null
            (Linked-relink h1 x xs null item v.distinct
              (Linked-write h (x ∷ xs) null item null out v.chain))
            (real, rw other (ground arith), tt);
      head = v.head;
      tail = sym (last_or-append x xs (item ∷ []));
      distinct = Distinct-append (x ∷ xs) (item ∷ []) v.distinct (refl, tt) apart;
    },
  )
    where
      h1 : Heap
      h1 = write_next h item null

      h2 : Heap
      h2 = write_next h1 (last_or x xs) item

      last_real : last_or x xs ≢ null
      last_real = last_or-ne-null h x xs null v.chain

      not_empty : (q.tail == null) ≡ false
      not_empty = rw v.tail (not_null (last_or x xs) h last_real)

      apart : (a : Ptr) → has a (x ∷ xs) ≡ true → has a (item ∷ []) ≡ false
      apart a i = rw (ne_of_has a item (x ∷ xs) i out)

      other : (last_or x xs == item) ≡ false
      other = ne_of_has (last_or x xs) item (x ∷ xs) (has-last_or x xs) out

  -- `push_back` of a new item puts it behind the others.
  pub push_back-IsQueue :
      (xs : List Ptr)
      → IsQueue h q xs
      → has item xs ≡ false
      → Yields (push_back q item) h (λ r h'. IsQueue h' r (xs ++ item ∷ []))
  push_back-IsQueue xs v out = push_back_cases xs v out

  -- `push_front` of a new item puts it in front of the others.
  pub push_front-IsQueue :
      (xs : List Ptr)
      → IsQueue h q xs
      → has item xs ≡ false
      → Yields (push_front q item) h (λ r h'. IsQueue h' r (item ∷ xs))
  unfolding push_front
  push_front-IsQueue [] v out = (
    queue item item,
    write_next h item q.head,
    rw (set_next_ok item h real q.head, ◌>>=◌, v.tail),
    record {
      chain = (real, ground (arith, v.head), tt);
      head = refl;
      tail = refl;
      distinct = (refl, tt);
    },
  )
  push_front-IsQueue (x ∷ xs) v out = (
    queue item q.tail,
    write_next h item q.head,
    rw (set_next_ok item h real q.head, ◌>>=◌, not_empty),
    record {
      chain = (real, ground (arith, v.head), Linked-write h (x ∷ xs) null item q.head out v.chain);
      head = refl;
      tail = v.tail;
      distinct = (out, v.distinct);
    },
  )
    where
      not_empty : (q.tail == null) ≡ false
      not_empty = rw v.tail (not_null (last_or x xs) h (last_or-ne-null h x xs null v.chain))

module _ (h : Heap) (q : Queue) where
  pop_front_run :
      q.head ≢ null
      → pop_front q h
        ≡ some ((q.head, queue (h.next q.head) (if h.next q.head == null then null else q.tail)), h)
  unfolding pop_front
  pop_front_run real = rw (get_next_ok q.head h real, ◌>>=◌, get_next_ok q.head h real)

  next_head : {x : Ptr} {xs : List Ptr} → IsQueue h q (x ∷ xs) → h.next q.head ≡ head_or null xs
  next_head v = ap h.next v.head ∙ v.chain.1

  popped-IsQueue :
      (x : Ptr) (xs : List Ptr)
      → IsQueue h q (x ∷ xs)
      → IsQueue h (queue (h.next q.head) (if h.next q.head == null then null else q.tail)) xs
  popped-IsQueue x [] v = record {
    chain = tt;
    head = next_head v;
    tail = rw (next_head v);
    distinct = tt;
  }
  popped-IsQueue x (y ∷ ys) v = record {
    chain = v.chain.2;
    head = next_head v;
    tail = rw (next_head v, not_null y h v.chain.2.0) v.tail;
    distinct = v.distinct.1;
  }

  -- `pop_front` of a queue that is not empty gives its first item, and leaves the others.
  pub pop_front-IsQueue :
      (x : Ptr) (xs : List Ptr)
      → IsQueue h q (x ∷ xs)
      → Yields (pop_front q) h (λ (item, r) h'. (item ≡ x) × IsQueue h' r xs)
  pop_front-IsQueue x xs v = (
    (q.head, queue (h.next q.head) (if h.next q.head == null then null else q.tail)),
    h,
    pop_front_run (λ e. v.chain.0 (sym v.head ∙ e)),
    (v.head, popped-IsQueue x xs v),
  )

  -- `pop_front` of an empty queue is a fault.
  pub pop_front_empty : IsQueue h q [] → pop_front q h ≡ none
  unfolding pop_front get_next
  pop_front_empty v = rw (v.head, ◌>>=◌)

module _ (h : Heap) (q other : Queue) where
  append_run :
      other.head ≢ null
      → q.head ≢ null
      → q.tail ≢ null
      → append q other h ≡ some (queue q.head other.tail, write_next h q.tail other.head)
  unfolding append
  append_run a b c =
      rw (not_null other.head h a, not_null q.head h b, set_next_ok q.tail h c other.head, ◌>>=◌)

  prepend_run :
      other.head ≢ null
      → other.tail ≢ null
      → prepend q other h
        ≡ some (
          queue other.head (if q.tail == null then other.tail else q.tail),
          write_next h other.tail q.head,
        )
  unfolding prepend
  prepend_run a b = rw (not_null other.head h a, set_next_ok other.tail h b q.head, ◌>>=◌)

  head_real : {x : Ptr} {xs : List Ptr} → IsQueue h q (x ∷ xs) → q.head ≢ null
  head_real v e = v.chain.0 (sym v.head ∙ e)

  tail_real : {x : Ptr} {xs : List Ptr} → IsQueue h q (x ∷ xs) → q.tail ≢ null
  tail_real {x} {xs} v e = last_or-ne-null h x xs null v.chain (sym v.tail ∙ e)

  joined_tail :
      (xs : List Ptr) (y : Ptr) (ys : List Ptr)
      → IsQueue h q xs
      → other.tail ≡ last_or y ys
      → (if q.tail == null then other.tail else q.tail) ≡ last_or y (ys ++ xs)
  joined_tail [] y ys v e = rw (v.tail, append-nil ys) e
  joined_tail (x ∷ xs) y ys v e =
      rw (not_null q.tail h (tail_real v)) (v.tail ∙ sym (last_or-append y ys (x ∷ xs)))

-- `append` puts the items of the other queue behind, as long as no item is in both.
pub append-IsQueue :
    (h : Heap) (q other : Queue) (xs ys : List Ptr)
    → IsQueue h q xs
    → IsQueue h other ys
    → ((a : Ptr) → has a xs ≡ true → has a ys ≡ false)
    → Yields (append q other) h (λ r h'. IsQueue h' r (xs ++ ys))
unfolding append
append-IsQueue h q other xs [] v w apart = (q, h, rw w.head, rw (append-nil xs) v)
append-IsQueue h q other [] (y ∷ ys) v w apart =
    (queue other.head other.tail, h, rw (w.head, not_null y h w.chain.0, v.head), w)
append-IsQueue h q other (x ∷ xs) (y ∷ ys) v w apart = (
  queue q.head other.tail,
  write_next h q.tail other.head,
  append_run h q other (head_real h other q w) (head_real h q other v) (tail_real h q other v),
  record {
    chain =
        subst₂ (λ t p. Linked (write_next h t p) (x ∷ xs ++ y ∷ ys) null) (sym v.tail) (sym w.head)
          (Linked-append (write_next h (last_or x xs) y) (x ∷ xs) (y ∷ ys) null
            (Linked-relink h x xs null y v.distinct v.chain)
            (Linked-write h (y ∷ ys) null (last_or x xs) y (apart (last_or x xs) (has-last_or x xs))
              w.chain));
    head = v.head;
    tail = w.tail ∙ sym (last_or-append x xs (y ∷ ys));
    distinct = Distinct-append (x ∷ xs) (y ∷ ys) v.distinct w.distinct apart;
  },
)

-- `prepend` puts the items of the other queue in front, as long as no item is in both.
pub prepend-IsQueue :
    (h : Heap) (q other : Queue) (xs ys : List Ptr)
    → IsQueue h q xs
    → IsQueue h other ys
    → ((a : Ptr) → has a ys ≡ true → has a xs ≡ false)
    → Yields (prepend q other) h (λ r h'. IsQueue h' r (ys ++ xs))
unfolding prepend
prepend-IsQueue h q other xs [] v w apart = (q, h, rw w.head, v)
prepend-IsQueue h q other xs (y ∷ ys) v w apart = (
  queue other.head (if q.tail == null then other.tail else q.tail),
  write_next h other.tail q.head,
  prepend_run h q other (head_real h other q w) (tail_real h other q w),
  record {
    chain =
        subst₂ (λ t p. Linked (write_next h t p) (y ∷ ys ++ xs) null) (sym w.tail) (sym v.head)
          (Linked-append (write_next h (last_or y ys) (head_or null xs)) (y ∷ ys) xs null
            (Linked-relink h y ys null (head_or null xs) w.distinct w.chain)
            (Linked-write h xs null (last_or y ys) (head_or null xs)
              (apart (last_or y ys) (has-last_or y ys)) v.chain));
    head = w.head;
    tail = joined_tail h q other xs y ys v w.tail;
    distinct = Distinct-append (y ∷ ys) xs w.distinct v.distinct apart;
  },
)
