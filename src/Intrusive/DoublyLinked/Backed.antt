-- ===== src/Intrusive/DoublyLinked/Backed.antt =====
-- The items of an intrusive_list seen from their `prev` pointers.
use senders_io.Prelude.{
  ◌≡◌, sym, subst, ◌∙◌, inl, inr, true, false, List, [], ◌∷◌, ◌++◌, arith, ◌==◌, ==_iff, Bool-cases,
}
use senders_io.Intrusive.{Ptr, null, Heap, write_next, write_prev}
use senders_io.Intrusive.Chain.{has, Distinct, last_or, head_or, Linked, head_or-append, has-append}
use senders_io.Intrusive.DoublyLinked.{IntrusiveList}

-- The `prev` pointer of the first item is b, and that of each other item is the item before it.
abbrev pub Backed : Heap → Ptr → List Ptr → Type 0
Backed h b [] = Unit {0}
Backed h b (x ∷ xs) = (h.prev x ≡ b) × Backed h x xs

-- The list holds the items xs in this order.
pub record IsList (h : Heap) (l : IntrusiveList) (xs : List Ptr) : Type 0 where
  pub chain : Linked h xs null
  pub back : Backed h null xs
  pub head : l.head ≡ head_or null xs
  pub tail : l.tail ≡ last_or null xs
  pub distinct : Distinct xs

pub Linked-write_prev :
    (h : Heap) (xs : List Ptr) (stop a v : Ptr)
    → Linked h xs stop
    → Linked (write_prev h a v) xs stop
Linked-write_prev h [] stop a v l = tt
Linked-write_prev h (x ∷ xs) stop a v l = (l.0, l.1, Linked-write_prev h xs stop a v l.2)

pub Backed-write_next :
    (h : Heap) (b : Ptr) (xs : List Ptr) (a v : Ptr)
    → Backed h b xs
    → Backed (write_next h a v) b xs
Backed-write_next h b [] a v l = tt
Backed-write_next h b (x ∷ xs) a v l = (l.0, Backed-write_next h x xs a v l.1)

pub Backed-write :
    (h : Heap) (b : Ptr) (xs : List Ptr) (a v : Ptr)
    → has a xs ≡ false
    → Backed h b xs
    → Backed (write_prev h a v) b xs
Backed-write h b [] a v out l = tt
Backed-write h b (x ∷ xs) a v out l = (ground arith, Backed-write h x xs a v (ground arith) l.1)

pub Backed-append :
    (h : Heap) (b : Ptr) (xs ys : List Ptr)
    → Backed h b xs
    → Backed h (last_or b xs) ys
    → Backed h b (xs ++ ys)
Backed-append h b [] ys l k = k
Backed-append h b (x ∷ xs) ys l k = (l.0, Backed-append h x xs ys l.1 k)

pub Backed-split :
    (h : Heap) (b : Ptr) (xs ys : List Ptr)
    → Backed h b (xs ++ ys)
    → Backed h b xs × Backed h (last_or b xs) ys
Backed-split h b [] ys l = (tt, l)
Backed-split h b (x ∷ xs) ys l =
    let (front, rest) = Backed-split h x xs ys l.1 in ((l.0, front), rest)

pub Linked-split :
    (h : Heap) (xs ys : List Ptr) (stop : Ptr)
    → Linked h (xs ++ ys) stop
    → Linked h xs (head_or stop ys) × Linked h ys stop
Linked-split h [] ys stop l = (tt, l)
Linked-split h (x ∷ xs) ys stop l =
    let (front, rest) = Linked-split h xs ys stop l.2 in
    ((l.0, l.1 ∙ head_or-append stop xs ys, front), rest)

-- The parts of a list of distinct items.
pub record Parts (xs ys : List Ptr) : Type 0 where
  pub front : Distinct xs
  pub rest : Distinct ys
  pub apart : (a : Ptr) → has a xs ≡ true → has a ys ≡ false

pub Distinct-Parts : (xs ys : List Ptr) → Distinct (xs ++ ys) → Parts xs ys
Distinct-Parts [] ys d = record { front = tt; rest = d; apart = λ a i. cc }
Distinct-Parts (x ∷ xs) ys d =
    let p = Distinct-Parts xs ys d.1 in
    record {
      front = (ground (arith, has-append x xs ys), p.front);
      rest = p.rest;
      apart = λ a i. elim (Bool-cases (a == x)) [
        | inl same ↦
            subst (λ y. has y ys ≡ false) (sym ((==_iff a x).0 same))
              (ground (arith, has-append x xs ys))
        | inr other ↦ p.apart a (ground arith)
      ];
    }
