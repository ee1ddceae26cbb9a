-- ===== src/Intrusive/Chain.antt =====
-- The items that a chain of `next` pointers goes through.
use senders_io.Prelude.{
  ◌≡◌, refl, sym, subst, ◌∙◌, ◌≢◌, inl, inr, Bool, true, false, ◌||◌, List, [], ◌∷◌, ◌++◌, arith,
  ◌==◌, ==_iff, Bool-cases,
}
use senders_io.Intrusive.{Ptr, null, Heap, write_next}

abbrev pub has : Ptr → List Ptr → Bool
has a [] = false
has a (x ∷ xs) = (a == x) || has a xs

abbrev pub Distinct : List Ptr → Type 0
Distinct [] = Unit {0}
Distinct (x ∷ xs) = (has x xs ≡ false) × Distinct xs

-- the last item, or `d` if there is none
abbrev pub last_or : Ptr → List Ptr → Ptr
last_or d [] = d
last_or d (x ∷ xs) = last_or x xs

-- the first item
abbrev pub head_or : Ptr → List Ptr → Ptr
head_or d [] = d
head_or d (x ∷ xs) = x

-- The `next` pointers go through the items xs, none of them `nullptr`, and on to `stop`.
abbrev pub Linked : Heap → List Ptr → Ptr → Type 0
Linked h [] stop = Unit {0}
Linked h (x ∷ xs) stop = (x ≢ null) × (h.next x ≡ head_or stop xs) × Linked h xs stop

pub has-append : (a : Ptr) (xs ys : List Ptr) → has a (xs ++ ys) ≡ (has a xs || has a ys)
has-append a [] ys = refl
has-append a (x ∷ xs) ys = ground (arith, has-append a xs ys)

pub head_or-append : (d : Ptr) (xs ys : List Ptr) → head_or d (xs ++ ys) ≡ head_or (head_or d ys) xs
head_or-append d [] ys = refl
head_or-append d (x ∷ xs) ys = refl

pub last_or-append : (d : Ptr) (xs ys : List Ptr) → last_or d (xs ++ ys) ≡ last_or (last_or d xs) ys
last_or-append d [] ys = refl
last_or-append d (x ∷ xs) ys = last_or-append x xs ys

pub has-last_or : (x : Ptr) (xs : List Ptr) → has (last_or x xs) (x ∷ xs) ≡ true
has-last_or x [] = ground arith
has-last_or x (y ∷ ys) = ground (arith, has-last_or y ys)

pub Linked-write :
    (h : Heap) (xs : List Ptr) (stop a v : Ptr)
    → has a xs ≡ false
    → Linked h xs stop
    → Linked (write_next h a v) xs stop
Linked-write h [] stop a v out l = tt
Linked-write h (x ∷ xs) stop a v out l =
    (l.0, ground arith, Linked-write h xs stop a v (ground arith) l.2)

pub Linked-append :
    (h : Heap) (xs ys : List Ptr) (stop : Ptr)
    → Linked h xs (head_or stop ys)
    → Linked h ys stop
    → Linked h (xs ++ ys) stop
Linked-append h [] ys stop l k = k
Linked-append h (x ∷ xs) ys stop l k =
    (l.0, l.1 ∙ sym (head_or-append stop xs ys), Linked-append h xs ys stop l.2 k)

-- an item of the chain is another than one outside
pub ne_of_has : (a b : Ptr) (xs : List Ptr) → has a xs ≡ true → has b xs ≡ false → (a == b) ≡ false
ne_of_has a b xs i o = elim (Bool-cases (a == b)) [
  | inl e ↦ cc (subst (λ y. has y xs ≡ true) ((==_iff a b).0 e) i)
  | inr e ↦ e
]

-- After a write to the last item the chain goes on to another place.
pub Linked-relink :
    (h : Heap) (x : Ptr) (xs : List Ptr) (stop v : Ptr)
    → Distinct (x ∷ xs)
    → Linked h (x ∷ xs) stop
    → Linked (write_next h (last_or x xs) v) (x ∷ xs) v
Linked-relink h x [] stop v d l = (l.0, ground arith, tt)
Linked-relink h x (y ∷ ys) stop v d l = (l.0, rw miss l.1, Linked-relink h y ys stop v d.1 l.2)
  where
    miss : (last_or y ys == x) ≡ false
    miss = ne_of_has (last_or y ys) x (y ∷ ys) (has-last_or y ys) d.0

pub last_or-ne-null :
    (h : Heap) (x : Ptr) (xs : List Ptr) (stop : Ptr) → Linked h (x ∷ xs) stop → last_or x xs ≢ null
last_or-ne-null h x [] stop l = l.0
last_or-ne-null h x (y ∷ ys) stop l = last_or-ne-null h y ys stop l.2

pub Distinct-append :
    (xs ys : List Ptr)
    → Distinct xs
    → Distinct ys
    → ((a : Ptr) → has a xs ≡ true → has a ys ≡ false)
    → Distinct (xs ++ ys)
Distinct-append [] ys d e apart = e
Distinct-append (x ∷ xs) ys d e apart = (
  rw (has-append x xs ys, d.0) (apart x (ground arith)),
  Distinct-append xs ys d.1 e (λ a i. apart a (ground arith)),
)
