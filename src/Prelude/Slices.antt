-- ===== src/Prelude/Slices.antt =====
-- How `take` and `drop` cut lists that were joined.
use Prim.Native.Nat.{ℕ, zero, suc, ◌+◌, ◌≤◌}
use mathlib.Core.Path.{◌≡◌, refl, ap}
use mathlib.Core.List.{List, [], ◌∷◌, ◌++◌}
use native.Mathlib.Omega.{arith}
use senders_io.Prelude.Lists.{length, take, drop}

module _ {ℓ} {A : Type ℓ} where
  pub take_all : (k : ℕ) (xs : List A) → length xs ≤ k → take k xs ≡ xs
  take_all zero [] h = refl
  take_all zero (x ∷ xs) h = absurd (omega arith)
  take_all (suc k) [] h = refl
  take_all (suc k) (x ∷ xs) h = ap (λ l. x ∷ l) (take_all k xs (omega arith))

  pub drop_all : (k : ℕ) (xs : List A) → length xs ≤ k → drop k xs ≡ []
  drop_all zero [] h = refl
  drop_all zero (x ∷ xs) h = absurd (omega arith)
  drop_all (suc k) [] h = refl
  drop_all (suc k) (x ∷ xs) h = drop_all k xs (omega arith)

  pub take-append_le : (n : ℕ) (xs ys : List A) → n ≤ length xs → take n (xs ++ ys) ≡ take n xs
  take-append_le zero xs ys h = refl
  take-append_le (suc n) [] ys h = absurd (omega arith)
  take-append_le (suc n) (x ∷ xs) ys h = ap (λ l. x ∷ l) (take-append_le n xs ys (omega arith))

  pub take-append_add :
      (n : ℕ) (xs ys : List A) {m : ℕ} → m ≡ length xs + n → take m (xs ++ ys) ≡ xs ++ take n ys
  take-append_add n [] ys {m} e = rw same
    where
      same : m ≡ n
      same = omega arith
  take-append_add n (x ∷ xs) ys {m = zero} e = absurd (omega arith)
  take-append_add n (x ∷ xs) ys {m = suc m} e =
      ap (λ l. x ∷ l) (take-append_add n xs ys (omega arith))

  pub drop-append_le :
      (n : ℕ) (xs ys : List A) → n ≤ length xs → drop n (xs ++ ys) ≡ drop n xs ++ ys
  drop-append_le zero xs ys h = refl
  drop-append_le (suc n) [] ys h = absurd (omega arith)
  drop-append_le (suc n) (x ∷ xs) ys h = drop-append_le n xs ys (omega arith)

  pub drop-append_add :
      (n : ℕ) (xs ys : List A) {m : ℕ} → m ≡ length xs + n → drop m (xs ++ ys) ≡ drop n ys
  drop-append_add n [] ys {m} e = rw same
    where
      same : m ≡ n
      same = omega arith
  drop-append_add n (x ∷ xs) ys {m = zero} e = absurd (omega arith)
  drop-append_add n (x ∷ xs) ys {m = suc m} e = drop-append_add n xs ys (omega arith)
