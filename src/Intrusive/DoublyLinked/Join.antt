-- ===== src/Intrusive/DoublyLinked/Join.antt =====
-- What erase writes: the neighbours of the item, where it has any, are linked to each other.
use senders_io.Prelude.{
  ◌≡◌, sym, subst, ◌≢◌, inl, inr, true, false, List, [], ◌∷◌, arith, ◌==◌, if◌then◌else◌,
  Bool-cases,
}
use senders_io.Intrusive.{Ptr, null, Heap, write_next, write_prev}
use senders_io.Intrusive.Steps.{not_null}
use senders_io.Intrusive.Chain.{
  has, Distinct, last_or, head_or, Linked, Linked-write, Linked-relink, has-last_or,
  last_or-ne-null,
}
use senders_io.Intrusive.DoublyLinked.Backed.{
  Backed, Linked-write_prev, Backed-write_next, Backed-write,
}

abbrev pub join_next : Heap → Ptr → Ptr → Heap
join_next h p n = if p == null then h else write_next h p n

abbrev pub join_prev : Heap → Ptr → Ptr → Heap
join_prev h p n = if n == null then h else write_prev h n p

pub join_next_real : (h : Heap) (p n : Ptr) → p ≢ null → join_next h p n ≡ write_next h p n
join_next_real h p n real = rw (not_null p h real)

pub join_prev_real : (h : Heap) (p n : Ptr) → n ≢ null → join_prev h p n ≡ write_prev h n p
join_prev_real h p n real = rw (not_null n h real)

pub join_next-prev : (h : Heap) (p n a : Ptr) → (join_next h p n).prev a ≡ h.prev a
join_next-prev h p n a = elim (Bool-cases (p == null)) [ inl e ↦ rw e | inr e ↦ rw e ]

pub join_prev-next : (h : Heap) (p n a : Ptr) → (join_prev h p n).next a ≡ h.next a
join_prev-next h p n a = elim (Bool-cases (n == null)) [ inl e ↦ rw e | inr e ↦ rw e ]

pub join_next-next : (h : Heap) (p a : Ptr) → (join_next h p (h.next a)).next a ≡ h.next a
join_next-next h p a = elim (Bool-cases (p == null)) [ inl e ↦ rw e | inr e ↦ rw e (ground arith) ]

pub join_next-Linked_front :
    (h : Heap) (xs : List Ptr) (stop n : Ptr)
    → Distinct xs
    → Linked h xs stop
    → Linked (join_next h (last_or null xs) n) xs n
join_next-Linked_front h [] stop n d l = tt
join_next-Linked_front h (x ∷ xs) stop n d l =
    subst (λ g. Linked g (x ∷ xs) n)
      (sym (join_next_real h (last_or x xs) n (last_or-ne-null h x xs stop l)))
      (Linked-relink h x xs stop n d l)

pub join_next-Linked_rest :
    (h : Heap) (xs ys : List Ptr) (stop n : Ptr)
    → ((a : Ptr) → has a xs ≡ true → has a ys ≡ false)
    → Linked h ys stop
    → Linked (join_next h (last_or null xs) n) ys stop
join_next-Linked_rest h [] ys stop n apart l = l
join_next-Linked_rest h (x ∷ xs) ys stop n apart l = elim (Bool-cases (last_or x xs == null)) [
  | inl e ↦ rw e l
  | inr e ↦
      rw e (Linked-write h ys stop (last_or x xs) n (apart (last_or x xs) (has-last_or x xs)) l)
]

pub join_next-Backed :
    (h : Heap) (p n b : Ptr) (zs : List Ptr) → Backed h b zs → Backed (join_next h p n) b zs
join_next-Backed h p n b zs l = elim (Bool-cases (p == null)) [
  | inl e ↦ rw e l
  | inr e ↦ rw e (Backed-write_next h b zs p n l)
]

pub join_prev-Linked :
    (h : Heap) (p n stop : Ptr) (zs : List Ptr)
    → Linked h zs stop
    → Linked (join_prev h p n) zs stop
join_prev-Linked h p n stop zs l = elim (Bool-cases (n == null)) [
  | inl e ↦ rw e l
  | inr e ↦ rw e (Linked-write_prev h zs stop n p l)
]

pub join_prev-Backed_front :
    (h : Heap) (p b : Ptr) (xs ys : List Ptr)
    → ((a : Ptr) → has a ys ≡ true → has a xs ≡ false)
    → Backed h b xs
    → Backed (join_prev h p (head_or null ys)) b xs
join_prev-Backed_front h p b xs [] apart l = l
join_prev-Backed_front h p b xs (y ∷ ys) apart l = elim (Bool-cases (y == null)) [
  | inl e ↦ rw e l
  | inr e ↦ rw e (Backed-write h b xs y p (apart y (ground arith)) l)
]

pub join_prev-Backed_rest :
    (h : Heap) (p b : Ptr) (ys : List Ptr)
    → Distinct ys
    → Linked h ys null
    → Backed h b ys
    → Backed (join_prev h p (head_or null ys)) p ys
join_prev-Backed_rest h p b [] d k l = tt
join_prev-Backed_rest h p b (y ∷ ys) d k l =
    subst (λ g. Backed g p (y ∷ ys)) (sym (join_prev_real h p y k.0))
      (ground arith, Backed-write h y ys y p d.0 l.1)
