-- ===== src/Items/Scan.antt =====
-- source/sio/sequence/scan.hpp: each item is turned into the value so far, combined with its own.
use mathlib.Core.List.{foldl}
use senders_io.Prelude.{ℕ, zero, suc, ◌≡◌, refl, Option, none, some, List, [], ◌∷◌, get_elem?, take}

-- how an item completes
pub data Ended (A : Type 0) : Type 0 where
  value : A → Ended A
  error : ℕ → Ended A
  stopped : Ended A

-- what the receiver of an item is told
pub data Told (T : Type 0) : Type 0 where
  set_value : T → Told T
  set_error : ℕ → Told T
  set_exception : Told T
  set_stopped : Told T

-- fn_ throws where it gives `none`.
module _ {T A : Type 0} (fn : T → A → Option T) where
  -- scan_data::emplace: the value, and what is returned
  unfoldable pub emplace : A → T → Option T
  emplace a value_ = fn value_ a

  -- item_receiver::set_value, set_error and set_stopped: the value, and what the item is told
  unfoldable pub complete_item : Ended A → T → T × Told T
  unfolding emplace
  complete_item (value a) value_ = elim (emplace a value_) [
    | some v ↦ (v, set_value v)
    | none ↦ (value_, set_exception)
  ]
  complete_item (error e) value_ = (value_, set_error e)
  complete_item stopped value_ = (value_, set_stopped)

  unfoldable pub complete_items : List (Ended A) → T → T × List (Told T)
  unfolding complete_item
  complete_items [] value_ = (value_, [])
  complete_items (x ∷ xs) value_ =
      let (v, t) = complete_item x value_ in let (w, ts) = complete_items xs v in (w, t ∷ ts)

-- the values of those items that have one
abbrev pub values_of : {A : Type 0} → List (Ended A) → List A
values_of [] = []
values_of (value a ∷ xs) = a ∷ values_of xs
values_of (error e ∷ xs) = values_of xs
values_of (stopped ∷ xs) = values_of xs

module _ {T A : Type 0} (g : T → A → T) where
  value-foldl :
      (xs : List (Ended A)) (v : T)
      → (complete_items (λ t a. some (g t a)) xs v).0 ≡ foldl g v (values_of xs)
  unfolding complete_items
  value-foldl [] v = refl
  value-foldl (value b ∷ xs) v = value-foldl xs (g v b)
  value-foldl (error d ∷ xs) v = value-foldl xs v
  value-foldl (stopped ∷ xs) v = value-foldl xs v

  told-foldl :
      (xs : List (Ended A)) (v : T) (i : ℕ) (a : A)
      → get_elem? xs i ≡ some (value a)
      → get_elem? (complete_items (λ t b. some (g t b)) xs v).1 i
        ≡ some (set_value (foldl g v (values_of (take (suc i) xs))))
  unfolding complete_items
  told-foldl [] v i a e = absurd (cc e)
  told-foldl (value b ∷ xs) v zero a e = refl
  told-foldl (value b ∷ xs) v (suc i) a e = told-foldl xs (g v b) i a e
  told-foldl (error d ∷ xs) v zero a e = absurd (cc e)
  told-foldl (error d ∷ xs) v (suc i) a e = told-foldl xs v i a e
  told-foldl (stopped ∷ xs) v zero a e = absurd (cc e)
  told-foldl (stopped ∷ xs) v (suc i) a e = told-foldl xs v i a e

  -- For a function that does not throw. The items complete in any order, some by an error or a stop.
  -- An item with a value is told the value at the start combined with those of the items up to itself,
  -- and in the end the value is that of all.
  pub complete_items-foldl :
      (xs : List (Ended A)) (v : T)
      → ((complete_items (λ t a. some (g t a)) xs v).0 ≡ foldl g v (values_of xs))
        × ((i : ℕ) (a : A)
            → get_elem? xs i ≡ some (value a)
            → get_elem? (complete_items (λ t b. some (g t b)) xs v).1 i
              ≡ some (set_value (foldl g v (values_of (take (suc i) xs)))))
  complete_items-foldl xs v = (value-foldl xs v, told-foldl xs v)
