-- ===== src/Fork/Once.antt =====
-- When the receiver of source/sio/sequence/fork.hpp is completed, if nobody asks it to stop.
use senders_io.Prelude.{
  sum_add, sum-find, sum, sum_mono, ℕ, ◌+◌, ◌≤◌, ◌<◌, ◌≡◌, ap, ◌⊎◌, inl, inr, some, List, arith,
  leb, leb→le, Bool-cases, length, get_elem?, size_mod,
}
use senders_io.Interleaving.{System, Trace}
use senders_io.Fork.{
  End, Allocation, Pc, sequence, waiting, claim, allocate, start_item, done, Operation, advance,
  opened, asking, Ready, init,
}
use senders_io.Fork.Counter.{holds, before, delivers, callbacks, bit, Holds, opened-le}
use senders_io.Fork.Reached.{Trace-Holds}

-- whether a run has anything left to do, or in the case of an item will be asked for
abbrev pub active : Pc → ℕ
active (waiting a) = 0
active done = 0
active p = 1

abbrev parts : Pc → ℕ
parts p = (holds p + asking p) + (before p + delivers p)

active-le : (p : Pc) → active p ≤ parts p + callbacks p
active-le p = ground (arith, p)

pub holds-le-active : (p : Pc) → holds p ≤ active p
holds-le-active p = ground (arith, p)

pub before-le-active : (p : Pc) → before p ≤ active p
before-le-active p = ground (arith, p)

delivers-le-active : (p : Pc) → delivers p ≤ active p
delivers-le-active p = ground (arith, p)

asking_ready : (p : Pc) (runs : List Pc) → 1 ≤ asking p → Ready p runs
asking_ready (claim x a) runs h = tt
asking_ready (allocate a) runs h = tt
asking_ready (start_item w) runs h = tt
asking_ready (waiting a) runs h = absurd (omega arith)
asking_ready (sequence e) runs h = absurd (omega arith)
asking_ready done runs h = absurd (omega arith)
asking_ready p runs h = tt

active_ready : (p : Pc) (runs : List Pc) → sum asking runs ≡ 0 → 1 ≤ active p → Ready p runs
active_ready (waiting a) runs q h = absurd (omega arith)
active_ready (sequence e) runs q h = q
active_ready done runs q h = absurd (omega arith)
active_ready p runs q h = tt

-- some run is ready, unless none has anything left to do
goes_on :
    (runs : List Pc)
    → 1 ≤ sum active runs
    → (i : ℕ) × (p : Pc) × (get_elem? runs i ≡ some p) × Ready p runs
goes_on runs h = elim (Bool-cases (leb 1 (sum asking runs))) [
  | inl asks ↦
      let (i, p, at, a) = sum-find asking runs (leb→le 1 _ asks) in
      (i, p, at, asking_ready p runs a)
  | inr quiet ↦
      let (i, p, at, a) = sum-find active runs h in
      (i, p, at, active_ready p runs (ground (arith, quiet)) a)
]

module _ (o : Operation) (runs : List Pc) (h : Holds o runs) where
  sum-parts :
      sum parts runs ≡ (sum holds runs + sum asking runs) + (sum before runs + sum delivers runs)
  sum-parts = omega (
    arith,
    sum_add (λ p. holds p + asking p) (λ p. before p + delivers p) runs,
    sum_add holds asking runs,
    sum_add before delivers runs,
  )

  active-split : sum active runs ≤ sum parts runs
  active-split = omega (
    arith,
    sum_mono active (λ p. parts p + callbacks p) runs active-le,
    sum_add parts callbacks runs,
    h.unasked,
  )

  pub told_at_rest : 1 ≤ length o.completions → sum active runs ≡ 0
  told_at_rest le = elim (Bool-cases (leb 1 o.ref_counter)) [
    | inl some_left ↦ absurd (omega (arith, h.once, ap bit some_left))
    | inr none_left ↦ elim (Bool-cases (leb 1 (sum asking runs))) [
      | inl asks ↦ absurd (
          ground (
            arith,
            none_left,
            h.counted,
            h.in_sequence (leb→le 1 _ asks),
            sum_mono opened holds runs opened-le,
          ))
      | inr quiet ↦ ground (arith, none_left, quiet, h.counted, h.once, sum-parts, active-split)
    ]
  ]

  rest_told : sum active runs ≡ 0 → length o.completions ≡ 1
  rest_told quiet = ground (
    arith,
    h.once,
    h.counted,
    sum_mono holds active runs holds-le-active,
    sum_mono before active runs before-le-active,
    sum_mono delivers active runs delivers-le-active,
  )

-- When nobody asks the receiver to stop, then in every state of a sequence and its items (fewer than
-- 2^64 - 2) ref_counter_ is the number of the receivers that own a reference; and either the receiver
-- of the whole was completed, just once, and no other receiver has anything left to do, or it was not
-- completed and some receiver is ready to go on.
pub completes_last :
    (last : End) (items : List Allocation) (n : ℕ) (s : System Operation Pc)
    → length items + 2 < size_mod
    → Trace advance Ready (init last items) n s
    → (s.op.ref_counter ≡ sum holds s.runs)
      × (((length s.op.completions ≡ 1) × (sum active s.runs ≡ 0))
          ⊎ ((length s.op.completions ≡ 0)
              × ((i : ℕ) × (p : Pc) × (get_elem? s.runs i ≡ some p) × Ready p s.runs)))
completes_last last items n s small path = (
  h.counted,
  elim (Bool-cases (leb 1 (sum active s.runs))) [
    | inl more ↦ inr (untold (leb→le 1 _ more), goes_on s.runs (leb→le 1 _ more))
    | inr rest ↦ inl (rest_told s.op s.runs h (ground (arith, rest)), ground (arith, rest))
  ],
)
  where
    h : Holds s.op s.runs
    h = Trace-Holds last items small path

    untold : 1 ≤ sum active s.runs → length s.op.completions ≡ 0
    untold le = elim (Bool-cases (leb 1 (length s.op.completions))) [
      | inl told ↦ absurd (omega (arith, told_at_rest s.op s.runs h (leb→le 1 _ told)))
      | inr none_told ↦ ground (arith, none_told)
    ]
