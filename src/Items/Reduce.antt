-- ===== src/Items/Reduce.antt =====
-- source/sio/sequence/reduce.hpp: last after scan. An item takes the mutex of scan to be combined with
-- the value so far, and then that of last, as two actions of a run of Interleaving.
use senders_io.Prelude.{ℕ, ◌≡◌, refl, Option, some, List, [], ◌∷◌, get_elem?}
use senders_io.Interleaving.{System, Trace, here, acts}
use senders_io.Items.Last.{Completion, Operation, begun, emplace}
use senders_io.Items.Last
use senders_io.Items.Scan.{Ended, Told, value}
use senders_io.Items.Scan

-- the value of scan, and the operation of last
pub record Reduction : Type 0 where
  pub value_ : ℕ
  pub kept : Operation

pub data Pc : Type 0 where
  combine : Ended ℕ → Pc
  give : Completion → Pc
  done : Pc

-- What the item receiver of scan tells that of last, where thrown is the current exception.
unfoldable pub as_completion : ℕ → Told ℕ → Completion
as_completion thrown (Scan.set_value v) = Last.set_value v
as_completion thrown (Scan.set_error e) = Last.set_error e
as_completion thrown Scan.set_exception = Last.set_error thrown
as_completion thrown Scan.set_stopped = Last.set_stopped

abbrev pub Ready : Pc → List Pc → Type 0
Ready done runs = ⊥
Ready p runs = Unit

abbrev pub start : ℕ → Reduction
start init = record { value_ = init; kept = begun }

module _ (fn : ℕ → ℕ → Option ℕ) (thrown : ℕ) where
  unfoldable pub advance : Pc → Reduction → Pc × Reduction
  advance (combine x) o =
      let (v, told) = Scan.complete_item fn x o.value_ in
      (give (as_completion thrown told), record o { value_ = v })
  advance (give c) o = (done, record o { kept = Last.complete_item c o.kept })
  advance done o = (done, o)

  -- items that complete one after the other
  unfoldable pub one_by_one : List (Ended ℕ) → Reduction → Reduction
  one_by_one [] o = o
  one_by_one (x ∷ xs) o = one_by_one xs (let (p, o1) = advance (combine x) o in (advance p o1).1)

module _ (g : ℕ → ℕ → ℕ) (thrown : ℕ) where
  abbrev fn : ℕ → ℕ → Option ℕ
  fn t a = some (g t a)

  -- two items at the same time, with any runs besides
  abbrev pub two_items : ℕ → ℕ → ℕ → List Pc → System Reduction Pc
  two_items init a b rest = record {
    op = start init;
    runs = combine (value a) ∷ combine (value b) ∷ rest;
  }

  -- Both items are combined, a before b, and the operation of last takes b before a: the result is
  -- without b, though the value of scan has both.
  pub overtaken_item_is_lost :
      (init a b : ℕ) (rest : List Pc)
      → (s : System Reduction Pc) × Trace (advance fn thrown) Ready (two_items init a b rest) 4 s
        × (get_elem? s.runs 0 ≡ some done)
        × (get_elem? s.runs 1 ≡ some done)
        × (s.op.value_ ≡ g (g init a) b)
        × (s.op.kept.result ≡ some (Last.set_value (g init a)))
  unfolding advance Last.complete_item emplace Scan.complete_item as_completion
  overtaken_item_is_lost init a b rest = (
    _,
    acts 3 _ 0 (give (Last.set_value (g init a)))
        (acts 2 _ 1 (give (Last.set_value (g (g init a) b)))
          (acts 1 _ 1 (combine (value b))
            (acts 0 (two_items init a b rest) 0 (combine (value a)) here refl tt) refl tt)
          refl tt)
        refl tt,
    refl,
    refl,
    refl,
    refl,
  )
