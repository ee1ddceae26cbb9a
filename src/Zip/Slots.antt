-- ===== src/Zip/Slots.antt =====
-- The runs of source/sio/sequence/zip.hpp while the items of the sequences come in, one for each.
use senders_io.Prelude.{
  sum, ℕ, zero, suc, ◌+◌, ◌≡◌, refl, sym, subst, some-injective, some, List, [], ◌∷◌, map, arith,
  length, get_elem?, set,
}
use senders_io.Zip.{Pc, begin, enqueue, notify, done, fronts, pop_fronts, has_item}

-- the run of item x of sequence k, and the queue of that sequence
pub data Slot (k x : ℕ) : Pc → List ℕ → Type 0 where
  begins : Slot k x (begin k x) []
  enqueues : Slot k x (enqueue k x) []
  notifies : Slot k x (notify k x) (x ∷ [])
  is_done : Slot k x done (x ∷ [])

abbrev pub Slots : ℕ → List ℕ → List Pc → List (List ℕ) → Type 0
Slots k [] [] [] = Unit
Slots k (x ∷ xs) (p ∷ ps) (q ∷ qs) = Slot k x p q × Slots (suc k) xs ps qs
Slots k xs ps qs = ⊥

-- runs whose item is not in its queue yet, runs that notify, and those that are done
abbrev pub waiting : Pc → ℕ
waiting (begin k x) = 1
waiting (enqueue k x) = 1
waiting p = 0

abbrev pub notifying : Pc → ℕ
notifying (notify k x) = 1
notifying p = 0

abbrev pub alive : Pc → ℕ
alive done = 0
alive p = 1

abbrev pub single : ℕ → List ℕ
single x = x ∷ []

pub Slots-get :
    (k : ℕ) (xs : List ℕ) (ps : List Pc) (qs : List (List ℕ)) (j : ℕ) (p : Pc)
    → Slots k xs ps qs
    → get_elem? ps j ≡ some p
    → (x : ℕ) × (q : List ℕ) × (get_elem? qs j ≡ some q)
      × Slot (k + j) x p q
      × (get_elem? xs j ≡ some x)
Slots-get k [] [] [] j p h e = absurd (ground (arith, e))
Slots-get k (x ∷ xs) (p0 ∷ ps) (q ∷ qs) zero p h e = (
  x,
  q,
  refl,
  subst (λ m. Slot m x p q) (omega arith) (subst (λ r. Slot k x r q) (some-injective p0 p e) h.0),
  refl,
)
Slots-get k (x ∷ xs) (p0 ∷ ps) (q ∷ qs) (suc j) p h e =
    let (y, r, at, slot, of) = Slots-get (suc k) xs ps qs j p h.1 e in
    (y, r, at, subst (λ m. Slot m y p r) (omega arith) slot, of)
Slots-get k [] [] (q ∷ qs) j p h e = absurd h
Slots-get k [] (p0 ∷ ps) qs j p h e = absurd h
Slots-get k (x ∷ xs) [] qs j p h e = absurd h
Slots-get k (x ∷ xs) (p0 ∷ ps) [] j p h e = absurd h

pub Slots-set :
    (k : ℕ) (xs : List ℕ) (ps : List Pc) (qs : List (List ℕ)) (j x : ℕ) (p : Pc) (q : List ℕ)
    → Slots k xs ps qs
    → get_elem? xs j ≡ some x
    → Slot (k + j) x p q
    → Slots k xs (set ps j p) (set qs j q)
Slots-set k [] [] [] j x p q h e slot = absurd (ground (arith, e))
Slots-set k (y ∷ xs) (p0 ∷ ps) (q0 ∷ qs) zero x p q h e slot = (
  subst (λ m. Slot m y p q) (omega arith)
      (subst (λ z. Slot (k + 0) z p q) (sym (some-injective y x e)) slot),
  h.1,
)
Slots-set k (y ∷ xs) (p0 ∷ ps) (q0 ∷ qs) (suc j) x p q h e slot =
    (h.0, Slots-set (suc k) xs ps qs j x p q h.1 e (subst (λ m. Slot m x p q) (omega arith) slot))
Slots-set k [] [] (q0 ∷ qs) j x p q h e slot = absurd h
Slots-set k [] (p0 ∷ ps) qs j x p q h e slot = absurd h
Slots-set k (y ∷ xs) [] qs j x p q h e slot = absurd h
Slots-set k (y ∷ xs) (p0 ∷ ps) [] j x p q h e slot = absurd h

Slot-sum : (k x : ℕ) (p : Pc) (q : List ℕ) → Slot k x p q → waiting p + notifying p ≡ alive p
Slot-sum k x p q begins = refl
Slot-sum k x p q enqueues = refl
Slot-sum k x p q notifies = refl
Slot-sum k x p q is_done = refl

pub Slots-sum :
    (k : ℕ) (xs : List ℕ) (ps : List Pc) (qs : List (List ℕ))
    → Slots k xs ps qs
    → sum waiting ps + sum notifying ps ≡ sum alive ps
Slots-sum k [] [] [] h = refl
Slots-sum k (x ∷ xs) (p ∷ ps) (q ∷ qs) h =
    omega (arith, Slot-sum k x p q h.0, Slots-sum (suc k) xs ps qs h.1)
Slots-sum k [] [] (q0 ∷ qs) h = absurd h
Slots-sum k [] (p0 ∷ ps) qs h = absurd h
Slots-sum k (y ∷ xs) [] qs h = absurd h
Slots-sum k (y ∷ xs) (p0 ∷ ps) [] h = absurd h

pub Slots-size :
    (k : ℕ) (xs : List ℕ) (ps : List Pc) (qs : List (List ℕ))
    → Slots k xs ps qs
    → length qs ≡ length xs
Slots-size k [] [] [] h = refl
Slots-size k (x ∷ xs) (p ∷ ps) (q ∷ qs) h = omega (arith, Slots-size (suc k) xs ps qs h.1)
Slots-size k [] [] (q0 ∷ qs) h = absurd h
Slots-size k [] (p0 ∷ ps) qs h = absurd h
Slots-size k (y ∷ xs) [] qs h = absurd h
Slots-size k (y ∷ xs) (p0 ∷ ps) [] h = absurd h

in_queue : (k x : ℕ) (p : Pc) (q : List ℕ) → Slot k x p q → waiting p ≡ 0 → q ≡ x ∷ []
in_queue k x p q begins e = absurd (omega arith)
in_queue k x p q enqueues e = absurd (omega arith)
in_queue k x p q notifies e = refl
in_queue k x p q is_done e = refl

pub Slots-full :
    (k : ℕ) (xs : List ℕ) (ps : List Pc) (qs : List (List ℕ))
    → Slots k xs ps qs
    → sum waiting ps ≡ 0
    → qs ≡ map single xs
Slots-full k [] [] [] h e = refl
Slots-full k (x ∷ xs) (p ∷ ps) (q ∷ qs) h e =
    rw (in_queue k x p q h.0 (omega arith), Slots-full (suc k) xs ps qs h.1 (omega arith)) refl
Slots-full k [] [] (q0 ∷ qs) h e = absurd h
Slots-full k [] (p0 ∷ ps) qs h e = absurd h
Slots-full k (y ∷ xs) [] qs h e = absurd h
Slots-full k (y ∷ xs) (p0 ∷ ps) [] h e = absurd h

pub fronts-single : (xs : List ℕ) → fronts (map single xs) ≡ some xs
fronts-single [] = refl
fronts-single (x ∷ xs) = rw (fronts-single xs) refl

pub pop_fronts-single : (xs : List ℕ) → sum has_item (pop_fronts (map single xs)) ≡ 0
pop_fronts-single [] = refl
pop_fronts-single (x ∷ xs) = omega (arith, pop_fronts-single xs)

pub length-pop_fronts-single : (xs : List ℕ) → length (pop_fronts (map single xs)) ≡ length xs
length-pop_fronts-single [] = refl
length-pop_fronts-single (x ∷ xs) = omega (arith, length-pop_fronts-single xs)
