-- ===== src/MemoryPool/Log2/Ones.antt =====
-- What a disjunction with a shifted copy makes of the ones at the top of a number.
use Prim.Native.Nat.{max, digits, bit_or, bit_or-bitwise}
use senders_io.Prelude.{
  ℕ, zero, suc, ◌+◌, ◌-◌, ◌*◌, ◌/◌, ◌%◌, ◌≤◌, min, ◌≡◌, refl, sym, ap, ◌∙◌, arith,
}

-- the native operation, unrolled over its fuel
abbrev or_rounds : ℕ → ℕ → ℕ → ℕ
or_rounds fuel x y = digits (λ rest. rest) max fuel x y

-- any fuel that is enough gives the same
or_rounds-enough : (x y f g : ℕ) → x ≤ f → x ≤ g → or_rounds f x y ≡ or_rounds g x y
or_rounds-enough zero y zero zero p q = refl
or_rounds-enough zero y zero (suc g) p q = refl
or_rounds-enough zero y (suc f) zero p q = refl
or_rounds-enough zero y (suc f) (suc g) p q = refl
or_rounds-enough (suc x) y zero g p q = absurd (omega arith)
or_rounds-enough (suc x) y (suc f) zero p q = absurd (omega arith)
or_rounds-enough (suc x) y (suc f) (suc g) p q =
    omega (arith, or_rounds-enough (suc x / 2) (y / 2) f g (omega arith) (omega arith))

nothing-bit_or : (y : ℕ) → bit_or 0 y ≡ y
nothing-bit_or y = bit_or-bitwise 0 y

pub bit_or_step : (x y : ℕ) → bit_or x y ≡ bit_or (x / 2) (y / 2) * 2 + max (x % 2) (y % 2)
bit_or_step zero y = omega (arith, nothing-bit_or (y / 2), nothing-bit_or y)
bit_or_step (suc x) y =
    let whole = bit_or-bitwise (suc x) y in
    let half = bit_or-bitwise (suc x / 2) (y / 2) in
    let fuel = or_rounds-enough (suc x / 2) (y / 2) x (suc x / 2) (omega arith) (omega arith) in
    omega (arith, whole, half, fuel)

bit_or-zero_fuel : (n a : ℕ) → a ≤ n → bit_or a 0 ≡ a
bit_or-zero_fuel n zero h = refl
bit_or-zero_fuel zero (suc a) h = absurd (omega arith)
bit_or-zero_fuel (suc n) (suc a) h =
    omega (arith, bit_or_step (suc a) 0, bit_or-zero_fuel n (suc a / 2) (omega arith))

bit_or-zero : (a : ℕ) → bit_or a 0 ≡ a
bit_or-zero a = bit_or-zero_fuel a a (omega arith)

-- n ones
abbrev pub ones : ℕ → ℕ
ones zero = 0
ones (suc n) = 2 * ones n + 1

-- a shift to the right, digit by digit
abbrev pub shr : ℕ → ℕ → ℕ
shr zero a = a
shr (suc n) a = shr n (a / 2)

-- to replace the first argument
shr_at : (m n a : ℕ) → m ≡ n → shr m a ≡ shr n a
shr_at m n a e = ap (λ k. shr k a) e

ones_at : {m n : ℕ} → m ≡ n → ones m ≡ ones n
ones_at e = ap ones e

halve_ones : (j : ℕ) → ones (suc j) / 2 ≡ ones j
halve_ones j = omega arith

pub shr-add : (m n a : ℕ) → shr (m + n) a ≡ shr n (shr m a)
shr-add zero n a = shr_at (0 + n) n a (omega arith)
shr-add (suc m) n a = shr_at (suc m + n) (suc (m + n)) a (omega arith) ∙ shr-add m n (a / 2)

shr-bit_or : (n a b : ℕ) → shr n (bit_or a b) ≡ bit_or (shr n a) (shr n b)
shr-bit_or zero a b = refl
shr-bit_or (suc n) a b = ap (shr n) half ∙ shr-bit_or n (a / 2) (b / 2)
  where
    half : bit_or a b / 2 ≡ bit_or (a / 2) (b / 2)
    half = omega (arith, bit_or_step a b)

shr-zero : (n : ℕ) → shr n 0 ≡ 0
shr-zero zero = refl
shr-zero (suc n) = shr-zero n

shr-ones : (n j : ℕ) → shr n (ones j) ≡ ones (j - n)
shr-ones zero j = ones_at (omega arith)
shr-ones (suc n) zero = shr-zero n ∙ ones_at {m = 0} (omega arith)
shr-ones (suc n) (suc j) = ap (shr n) (halve_ones j) ∙ shr-ones n j ∙ ones_at (omega arith)

ones_or_fewer : (b j : ℕ) → b ≤ j → bit_or (ones j) (ones b) ≡ ones j
ones_or_fewer zero j le = bit_or-zero (ones j)
ones_or_fewer (suc b) zero le = absurd (omega arith)
ones_or_fewer (suc b) (suc j) le =
    bit_or_step (ones (suc j)) (ones (suc b))
    ∙ rw (halve_ones j, halve_ones b, ones_or_fewer b j (omega arith)) (omega arith)

-- ones at the top, and ones in the other number over all digits below
or_ones : (s j b a : ℕ) → shr s a ≡ ones j → s ≤ b → b ≤ s + j → bit_or a (ones b) ≡ ones (s + j)
or_ones zero j b a top le lt = rw top (ones_or_fewer b j (omega arith) ∙ ones_at (omega arith))
or_ones (suc s) j zero a top le lt = absurd (omega arith)
or_ones (suc s) j (suc b) a top le lt =
    bit_or_step a (ones (suc b))
    ∙ rw (halve_ones b, or_ones s j b (a / 2) top (omega arith) (omega arith))
        (omega arith ∙ ones_at {m = suc (s + j)} (omega arith))

-- One assignment: a number with j ones over i unknown digits has ones in place of s more of them.
pub ones_grow :
    (i j s a : ℕ)
    → shr i a ≡ ones j
    → min s i ≤ j - (s - i)
    → shr (i - s) (bit_or a (shr s a)) ≡ ones (j + min s i)
ones_grow i j s a top enough =
    shr-bit_or (i - s) a (shr s a)
    ∙ ap (bit_or (shr (i - s) a)) copy
    ∙ or_ones (min s i) j (j - (s - i)) (shr (i - s) a) above enough (omega arith)
    ∙ ones_at (omega arith)
  where
    copy : shr (i - s) (shr s a) ≡ ones (j - (s - i))
    copy =
        sym (shr-add s (i - s) a)
        ∙ shr_at (s + (i - s)) (i + (s - i)) a (omega arith)
        ∙ shr-add i (s - i) a
        ∙ ap (shr (s - i)) top
        ∙ shr-ones (s - i) j

    above : shr (min s i) (shr (i - s) a) ≡ ones j
    above = sym (shr-add (i - s) (min s i) a) ∙ shr_at (i - s + min s i) i a (omega arith) ∙ top
