-- ===== src/Prelude/Sums.antt =====
-- Sums of a weight over a list, and what a write to the list makes of them.
use Prim.Native.Nat.{ℕ, zero, suc, ◌+◌, ◌*◌, ◌≤◌}
use mathlib.Core.Path.{◌≡◌, refl, subst}
use mathlib.Core.Logic.{inl, inr}
use mathlib.Core.List.{List, [], ◌∷◌, map}
use mathlib.Core.Option.{some, some-injective}
use native.Mathlib.Omega.{arith}
use senders_io.Prelude.Tests.{leb, leb→le, Bool-cases}
use senders_io.Prelude.Lists.{length, get_elem?, set}

module _ {A : Type 0} where
  abbrev pub sum : (A → ℕ) → List A → ℕ
  sum w [] = 0
  sum w (p ∷ ps) = w p + sum w ps

  pub sum-set :
      (w : A → ℕ) (ps : List A) (i : ℕ) (p q : A)
      → get_elem? ps i ≡ some p
      → sum w (set ps i q) + w p ≡ sum w ps + w q
  sum-set w [] i p q e = absurd (ground (arith, e))
  sum-set w (x ∷ ps) zero p q e = rw (some-injective x p e) (omega arith)
  sum-set w (x ∷ ps) (suc i) p q e = omega (arith, sum-set w ps i p q e)

  pub sum-part :
      (w : A → ℕ) (ps : List A) (i : ℕ) (p : A) → get_elem? ps i ≡ some p → w p ≤ sum w ps
  sum-part w [] i p e = absurd (ground (arith, e))
  sum-part w (x ∷ ps) zero p e = rw (some-injective x p e) (omega arith)
  sum-part w (x ∷ ps) (suc i) p e = omega (arith, sum-part w ps i p e)

  -- a weight that is nowhere larger has no larger sum
  pub sum_mono : (v w : A → ℕ) (ps : List A) → ((p : A) → v p ≤ w p) → sum v ps ≤ sum w ps
  sum_mono v w [] le = omega arith
  sum_mono v w (p ∷ ps) le = omega (arith, sum_mono v w ps le, le p)

  pub sum-le-length : (w : A → ℕ) (ps : List A) → ((p : A) → w p ≤ 1) → sum w ps ≤ length ps
  sum-le-length w [] le = omega arith
  sum-le-length w (p ∷ ps) le = omega (arith, le p, sum-le-length w ps le)

  pub sum_add : (v w : A → ℕ) (ps : List A) → sum (λ p. v p + w p) ps ≡ sum v ps + sum w ps
  sum_add v w [] = omega arith
  sum_add v w (p ∷ ps) = omega (arith, sum_add v w ps)

  -- a sum that is not 0 has a weight that is not 0
  pub sum-find :
      (w : A → ℕ) (ps : List A)
      → 1 ≤ sum w ps
      → (i : ℕ) × (p : A) × (get_elem? ps i ≡ some p) × (1 ≤ w p)
  sum-find w [] h = absurd (omega arith)
  sum-find w (p ∷ ps) h = elim (Bool-cases (leb 1 (w p))) [
    | inl here ↦ (0, p, refl, leb→le 1 (w p) here)
    | inr there ↦ let (i, q, at, le) = sum-find w ps (ground (arith, there)) in (suc i, q, at, le)
  ]

  -- where one weight is 0, the other is
  pub sum-zero :
      (v w : A → ℕ) (ps : List A) → ((p : A) → v p ≡ 0 → w p ≡ 0) → sum v ps ≡ 0 → sum w ps ≡ 0
  sum-zero v w [] z h = refl
  sum-zero v w (p ∷ ps) z h = omega (arith, z p (omega arith), sum-zero v w ps z (omega arith))

  abbrev pub All {κ} : (A → Type κ) → List A → Type κ
  All P [] = Unit
  All P (x ∷ xs) = P x × All P xs

  pub All-set {κ} :
      (P : A → Type κ) (xs : List A) (i : ℕ) (x : A) → All P xs → P x → All P (set xs i x)
  All-set P [] i x h p = tt
  All-set P (y ∷ ys) zero x h p = (p, h.1)
  All-set P (y ∷ ys) (suc i) x h p = (h.0, All-set P ys i x h.1 p)

  pub All-get {κ} :
      (P : A → Type κ) (xs : List A) (i : ℕ) (x : A) → All P xs → get_elem? xs i ≡ some x → P x
  All-get P [] i x h e = absurd (ground (arith, e))
  All-get P (y ∷ ys) zero x h e = subst P (some-injective y x e) h.0
  All-get P (y ∷ ys) (suc i) x h e = All-get P ys i x h.1 e

module _ {A B : Type 0} where
  -- the same weight for each
  pub sum-map_const :
      (w : B → ℕ) (f : A → B) (k : ℕ) (xs : List A)
      → ((x : A) → w (f x) ≡ k)
      → sum w (map f xs) ≡ length xs * k
  sum-map_const w f k [] same = omega arith
  sum-map_const w f k (x ∷ xs) same = grind (arith, same x, sum-map_const w f k xs same)
