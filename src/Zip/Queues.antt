-- ===== src/Zip/Queues.antt =====
-- The queues of source/sio/sequence/zip.hpp: their first items, and the queues without them.
use senders_io.Prelude.{
  >>=-eq-some, sum-le-length, sum, some-injective, ℕ, zero, suc, ◌+◌, ◌^◌, ◌≤◌, ◌<◌, ◌≡◌, refl, sym,
  ap, some, List, [], ◌∷◌, arith, length, get_elem?, set, get_or,
}
use senders_io.Zip.{add32, fronts, pop_fronts, has_item}

pub has_item-le : (q : List ℕ) → has_item q ≤ 1
has_item-le [] = omega arith
has_item-le (x ∷ q) = omega arith

pub get_or-of_get :
    (qs : List (List ℕ)) (i : ℕ) (q : List ℕ) → get_elem? qs i ≡ some q → get_or qs i [] ≡ q
get_or-of_get [] i q e = cc
get_or-of_get (p ∷ qs) zero q e = some-injective p q e
get_or-of_get (p ∷ qs) (suc i) q e = get_or-of_get qs i q e

-- every queue has an item
pub fronts-some :
    (qs : List (List ℕ)) → sum has_item qs ≡ length qs → (row : List ℕ) × (fronts qs ≡ some row)
fronts-some [] e = ([], refl)
fronts-some ([] ∷ qs) e = absurd (omega (arith, e, sum-le-length has_item qs has_item-le))
fronts-some ((x ∷ q) ∷ qs) e = let (row, f) = fronts-some qs (omega arith) in (x ∷ row, rw f refl)

pub length-pop_fronts : (qs : List (List ℕ)) → length (pop_fronts qs) ≡ length qs
length-pop_fronts [] = refl
length-pop_fronts ([] ∷ qs) = ap suc (length-pop_fronts qs)
length-pop_fronts ((x ∷ q) ∷ qs) = ap suc (length-pop_fronts qs)

-- a queue is its first item, which is in the row, and what is left of it
pub pop_fronts-get :
    (qs : List (List ℕ)) (row : List ℕ) (j : ℕ) (q : List ℕ)
    → fronts qs ≡ some row
    → get_elem? (pop_fronts qs) j ≡ some q
    → get_elem? qs j ≡ some (get_or row j 0 ∷ q)
pop_fronts-get [] row j q f e = absurd (cc e)
pop_fronts-get ([] ∷ qs) row j q f e = absurd (cc f)
pop_fronts-get ((x ∷ p) ∷ qs) row zero q f e =
    let (r, g, same) = >>=-eq-some (fronts qs) (λ r. some (x ∷ r)) f in
    rw (← some-injective (x ∷ r) row same, ← some-injective p q e) refl
pop_fronts-get ((x ∷ p) ∷ qs) row (suc j) q f e =
    let (r, g, same) = >>=-eq-some (fronts qs) (λ r. some (x ∷ r)) f in
    rw (← some-injective (x ∷ r) row same) (pop_fronts-get qs r j q g e)

-- an empty queue is not counted
pub sum-has_item_lt :
    (qs : List (List ℕ)) (i : ℕ) → get_elem? qs i ≡ some [] → sum has_item qs < length qs
sum-has_item_lt [] i e = absurd (cc e)
sum-has_item_lt (q ∷ qs) zero e =
    omega (arith, ap has_item (some-injective q [] e), sum-le-length has_item qs has_item-le)
sum-has_item_lt (q ∷ qs) (suc i) e = omega (arith, has_item-le q, sum-has_item_lt qs i e)

pub pop_fronts-of_get :
    (qs : List (List ℕ)) (i x : ℕ) (q : List ℕ)
    → get_elem? qs i ≡ some (x ∷ q)
    → get_elem? (pop_fronts qs) i ≡ some q
pop_fronts-of_get [] i x q e = absurd (cc e)
pop_fronts-of_get ([] ∷ qs) zero x q e = absurd (cc e)
pop_fronts-of_get ((y ∷ p) ∷ qs) zero x q e = cc e
pop_fronts-of_get ([] ∷ qs) (suc i) x q e = pop_fronts-of_get qs i x q e
pop_fronts-of_get ((y ∷ p) ∷ qs) (suc i) x q e = pop_fronts-of_get qs i x q e

-- where not all are counted, one is empty
pub empty-find :
    (qs : List (List ℕ)) → sum has_item qs < length qs → (j : ℕ) × (get_elem? qs j ≡ some [])
empty-find [] h = absurd (omega arith)
empty-find ([] ∷ qs) h = (0, refl)
empty-find ((x ∷ q) ∷ qs) h = let (j, e) = empty-find qs (omega arith) in (suc j, e)

pub get-some :
    (qs : List (List ℕ)) (i : ℕ) → i < length qs → (q : List ℕ) × (get_elem? qs i ≡ some q)
get-some [] i h = absurd (omega arith)
get-some (q ∷ qs) zero h = (q, refl)
get-some (q ∷ qs) (suc i) h = get-some qs i (omega arith)

pub set-get :
    {A : Type 0} (qs : List A) (i : ℕ) (q p : A)
    → get_elem? qs i ≡ some q
    → get_elem? (set qs i p) i ≡ some p
set-get [] i q p e = absurd (cc e)
set-get (r ∷ qs) zero q p e = refl
set-get (r ∷ qs) (suc i) q p e = set-get qs i q p e

pub set-same :
    {A : Type 0} (qs : List A) (i : ℕ) (q : A) → get_elem? qs i ≡ some q → set qs i q ≡ qs
set-same [] i q e = refl
set-same (r ∷ qs) zero q e = ap (λ l. l ∷ qs) (sym (some-injective r q e))
set-same (r ∷ qs) (suc i) q e = ap (λ l. r ∷ l) (set-same qs i q e)

pub add32_exact : (n : ℕ) → n < 2 ^ 31 → add32 n 1 ≡ n + 1
unfolding add32
add32_exact n h = omega arith
