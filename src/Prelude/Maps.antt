-- ===== src/Prelude/Maps.antt =====
-- Arrays and memory as functions of an index or an address.
use Prim.Native.Nat.{ℕ}
use mathlib.Core.Path.{◌≡◌, subst}
use mathlib.Core.Logic.{inl, inr}
use mathlib.Core.Bool.{true}
use native.Mathlib.Omega.{arith}
use senders_io.Prelude.Tests.{◌==◌, if◌then◌else◌, ==_iff, Bool-cases}

abbrev pub assign {ℓ} : {A : Type ℓ} → (ℕ → A) → ℕ → A → ℕ → A
assign f i v j = if i == j then v else f j

pub ==-self : (i : ℕ) → (i == i) ≡ true
==-self i = ground arith

-- What holds of the value that is written and of the old values holds after the write.
module _ {ℓ κ} {A : Type ℓ} (P : ℕ → A → Type κ) (f : ℕ → A) (i : ℕ) (v : A) where
  pub assign-all : P i v → ((j : ℕ) → P j (f j)) → (j : ℕ) → P j (assign f i v j)
  assign-all here there j = elim (Bool-cases (i == j)) [
    | inl e ↦ rw e (subst (λ k. P k v) ((==_iff i j).0 e) here)
    | inr e ↦ rw e (there j)
  ]

module _ {ℓ μ κ} {A : Type ℓ} {B : Type μ} (P : ℕ → A → B → Type κ) (f : ℕ → A) (g : ℕ → B) (i : ℕ)
    (v : A) (w : B) where
  pub assign-both :
      P i v w → ((j : ℕ) → P j (f j) (g j)) → (j : ℕ) → P j (assign f i v j) (assign g i w j)
  assign-both here there j = elim (Bool-cases (i == j)) [
    | inl e ↦ rw e (subst (λ k. P k v w) ((==_iff i j).0 e) here)
    | inr e ↦ rw e (there j)
  ]
