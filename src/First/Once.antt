-- ===== src/First/Once.antt =====
-- What the receivers of source/sio/sequence/first.hpp are told, and that the runs come to an end.
use senders_io.Prelude.{
  sum-find, sum-zero, sum-map_const, sum, sum-part, ℕ, ◌+◌, ◌*◌, ◌≤◌, ◌<◌, ◌≡◌, refl, ◌⊎◌, inl, inr,
  false, some, List, arith, leb, leb→le, Bool-cases, length, get_elem?,
}
use senders_io.Interleaving.{System, Trace, Trace-le}
use senders_io.First.{
  Completion, Pc, running, construct, publish, stop_item, done, sequence, End, value, stopped,
  error, finished, Operation, advance, busy, Ready, init,
}
use senders_io.First.Holds.{waiting, Holds}
use senders_io.First.Invariant.{Trace-Holds}

-- whether a run has anything left to do
abbrev pub unfinished : Pc → ℕ
unfinished done = 0
unfinished finished = 0
unfinished p = 1

pub unfinished-zero : (p : Pc) → unfinished p ≡ 0 → waiting p + busy p ≡ 0
unfinished-zero p e = ground (arith, p)

-- the actions that a run has left, at most
abbrev weight : Pc → ℕ
weight (running c) = 4
weight (construct c) = 3
weight publish = 2
weight stop_item = 1
weight done = 0
weight (sequence e) = 1
weight finished = 0

lowers :
    (p : Pc) (runs : List Pc) (o : Operation) → Ready p runs → weight (advance p o).0 < weight p
unfolding advance
lowers (running c) runs o ready = ground arith
lowers (construct c) runs o ready = omega arith
lowers publish runs o ready = omega arith
lowers stop_item runs o ready = omega arith
lowers done runs o ready = absurd ready
lowers (sequence value) runs o ready = omega arith
lowers (sequence stopped) runs o ready = omega arith
lowers (sequence (error e)) runs o ready = omega arith
lowers finished runs o ready = absurd ready

busy_ready : (p : Pc) (runs : List Pc) → 1 ≤ busy p → Ready p runs
busy_ready (running c) runs h = tt
busy_ready (construct c) runs h = tt
busy_ready publish runs h = tt
busy_ready stop_item runs h = tt
busy_ready done runs h = absurd (omega arith)
busy_ready (sequence e) runs h = absurd (omega arith)
busy_ready finished runs h = absurd (omega arith)

quiet_ready :
    (p : Pc) (runs : List Pc) → sum busy runs ≡ 0 → busy p ≡ 0 → 1 ≤ unfinished p → Ready p runs
quiet_ready (running c) runs q b h = tt
quiet_ready (construct c) runs q b h = tt
quiet_ready publish runs q b h = tt
quiet_ready stop_item runs q b h = tt
quiet_ready done runs q b h = absurd (omega arith)
quiet_ready (sequence e) runs q b h = q
quiet_ready finished runs q b h = absurd (omega arith)

-- some run is ready, unless all have come to their ends
goes_on :
    (runs : List Pc)
    → 1 ≤ sum unfinished runs
    → (i : ℕ) × (p : Pc) × (get_elem? runs i ≡ some p) × Ready p runs
goes_on runs h = elim (Bool-cases (leb 1 (sum busy runs))) [
  | inl some_busy ↦
      let (i, p, at, b) = sum-find busy runs (leb→le 1 _ some_busy) in
      (i, p, at, busy_ready p runs b)
  | inr none_busy ↦
      let (i, p, at, u) = sum-find unfinished runs h in
      (
        i,
        p,
        at,
        quiet_ready p runs (ground (arith, none_busy))
            (ground (arith, none_busy, sum-part busy runs i p at)) u,
      )
]

-- Every schedule of a sequence with k items has at most 4 k + 1 actions; and in each state that it
-- reaches either all receivers have come to their ends or one of them is ready.
pub first_runs_end :
    (last : End) (items : List Completion) (n : ℕ) (s : System Operation Pc)
    → Trace advance Ready (init last items) n s
    → (n ≤ length items * 4 + 1)
      × ((sum unfinished s.runs ≡ 0)
          ⊎ ((i : ℕ) × (p : Pc) × (get_elem? s.runs i ≡ some p) × Ready p s.runs))
first_runs_end last items n s path = (
  omega (
    arith,
    Trace-le advance Ready weight lowers path,
    sum-map_const weight running 4 items (λ c. refl),
  ),
  elim (Bool-cases (leb 1 (sum unfinished s.runs))) [
    | inl more ↦ inr (goes_on s.runs (leb→le 1 _ more))
    | inr ended ↦ inl (ground (arith, ended))
  ],
)

-- When all receivers of a sequence have come to their ends, the receiver of the whole was completed
-- just once and each item was told set_stopped once; and with at least one item, the result was not
-- read before it was constructed.
pub first_completes_once :
    (last : End) (items : List Completion) (n : ℕ) (s : System Operation Pc)
    → Trace advance Ready (init last items) n s
    → sum unfinished s.runs ≡ 0
    → (length s.op.completions ≡ 1)
      × (s.op.item_stops ≡ length items)
      × (1 ≤ length items → s.op.read_uninitialised ≡ false)
first_completes_once last items n s path quiet =
    (omega (arith, h.told, none_waits), omega (arith, h.stopped, none_busy), h.safe)
  where
    h : Holds (length items) s.op s.runs
    h = Trace-Holds last items path

    none_waits : sum waiting s.runs ≡ 0
    none_waits =
        sum-zero unfinished waiting s.runs (λ p e. omega (arith, unfinished-zero p e)) quiet

    none_busy : sum busy s.runs ≡ 0
    none_busy = sum-zero unfinished busy s.runs (λ p e. omega (arith, unfinished-zero p e)) quiet
