-- ===== src/Zip/Together.antt =====
-- That zip (source/sio/sequence/zip.hpp) of sequences with one item each comes to its one row.
use senders_io.Prelude.{
  sum, sum-set, sum-find, ℕ, suc, ◌+◌, ◌*◌, ◌^◌, ◌≤◌, ◌<◌, ◌≡◌, ◌≢◌, refl, ap, ◌∙◌, subst, ◌⊎◌, inl,
  inr, false, Option, none, some, List, [], ◌∷◌, arith, length, get_elem?, replicate,
}
use senders_io.Interleaving.{System, Trace, here, acts, move}
use senders_io.Zip.{
  Zip, Pc, begin, enqueue, notify, collect, pop, check, count, start, again, request_stop, drain,
  done, faulted, fronts, collected, popped, advance, Ready, fresh,
}
use senders_io.Zip.Slots.{Slot, begins, enqueues, notifies, is_done, Slots, alive, Slots-get}
use senders_io.Zip.Stages.{Stage, Gathered, not_done, the_run, finish_step}
use senders_io.Zip.Single.{gather_slot}

-- what is left to do, at most
abbrev weight : Pc → ℕ
weight (begin k x) = 8
weight (enqueue k x) = 7
weight (notify k x) = 6
weight (collect i) = 5
weight (pop i row) = 4
weight (check i row ops) = 3
weight (count i row) = 2
weight (start i row b) = 1
weight p = 0

-- runs that do not go back
abbrev Forward : Pc → Type 0
Forward (start i row b) = b ≡ false
Forward (again i) = ⊥
Forward request_stop = ⊥
Forward drain = ⊥
Forward p = Unit

collected_lowers : (i : ℕ) (f : Option (List ℕ)) → weight (collected i f) < 5
collected_lowers i none = omega arith
collected_lowers i (some row) = omega arith

popped_lowers :
    (i : ℕ) (row : List ℕ) (f : Option (List ℕ)) (o : Zip) → weight (popped i row f o).0 < 4
popped_lowers i row none o = omega arith
popped_lowers i row (some ops) o = omega arith

lowers :
    (p : Pc) (runs : List Pc) (o : Zip)
    → Forward p
    → Ready p runs
    → weight (advance p o).0 < weight p
unfolding advance
lowers (begin k x) runs o f r = ground arith
lowers (enqueue k x) runs o f r = omega arith
lowers (notify k x) runs o f r = ground arith
lowers (collect i) runs o f r = collected_lowers i (fronts o.item_queues)
lowers (pop i row) runs o f r = popped_lowers i row (fronts o.item_queues) o
lowers (check i row ops) runs o f r = ground arith
lowers (count i row) runs o f r = ground arith
lowers (start i row b) runs o f r = rw f (omega arith)
lowers (again i) runs o f r = absurd f
lowers request_stop runs o f r = absurd f
lowers drain runs o f r = absurd f
lowers done runs o f r = absurd r
lowers faulted runs o f r = absurd r

Slot-Forward : (k x : ℕ) (p : Pc) (q : List ℕ) → Slot k x p q → Forward p
Slot-Forward k x p q begins = tt
Slot-Forward k x p q enqueues = tt
Slot-Forward k x p q notifies = tt
Slot-Forward k x p q is_done = tt

Stage-Forward : (xs : List ℕ) (p : Pc) (o : Zip) → Stage xs p o → Forward p
Stage-Forward xs (collect i) o h = tt
Stage-Forward xs (pop i row) o h = tt
Stage-Forward xs (check i row ops) o h = tt
Stage-Forward xs (count i row) o h = tt
Stage-Forward xs (start i row b) o h = h.2
Stage-Forward xs done o h = tt
Stage-Forward xs (begin k x) o h = tt
Stage-Forward xs (enqueue k x) o h = tt
Stage-Forward xs (notify k x) o h = tt
Stage-Forward xs (again i) o h = absurd h
Stage-Forward xs request_stop o h = absurd h
Stage-Forward xs drain o h = absurd h
Stage-Forward xs faulted o h = tt

Stage-rows : (xs : List ℕ) (p : Pc) (o : Zip) → Stage xs p o → (o.rows ≡ []) ⊎ (o.rows ≡ xs ∷ [])
Stage-rows xs (collect i) o h = inl h.1
Stage-rows xs (pop i row) o h = inl h.1
Stage-rows xs (check i row ops) o h = inl h.1
Stage-rows xs (count i row) o h = inl h.1
Stage-rows xs (start i row b) o h = inl h.0
Stage-rows xs done o h = inr h
Stage-rows xs (begin k x) o h = absurd h
Stage-rows xs (enqueue k x) o h = absurd h
Stage-rows xs (notify k x) o h = absurd h
Stage-rows xs (again i) o h = absurd h
Stage-rows xs request_stop o h = absurd h
Stage-rows xs drain o h = absurd h
Stage-rows xs faulted o h = absurd h

Stage-done : (xs : List ℕ) (p : Pc) (o : Zip) → alive p ≡ 0 → Stage xs p o → o.rows ≡ xs ∷ []
Stage-done xs done o e h = h
Stage-done xs (collect i) o e h = absurd (omega arith)
Stage-done xs (pop i row) o e h = absurd (omega arith)
Stage-done xs (check i row ops) o e h = absurd (omega arith)
Stage-done xs (count i row) o e h = absurd (omega arith)
Stage-done xs (start i row b) o e h = absurd (omega arith)
Stage-done xs (begin k x) o e h = absurd h
Stage-done xs (enqueue k x) o e h = absurd h
Stage-done xs (notify k x) o e h = absurd h
Stage-done xs (again i) o e h = absurd h
Stage-done xs request_stop o e h = absurd h
Stage-done xs drain o e h = absurd h
Stage-done xs faulted o e h = absurd h

alive-Ready : (p : Pc) (runs : List Pc) → 1 ≤ alive p → p ≢ faulted → Ready p runs
alive-Ready done runs h no_fault = absurd (omega arith)
alive-Ready faulted runs h no_fault = absurd (no_fault refl)
alive-Ready (begin k x) runs h no_fault = tt
alive-Ready (enqueue k x) runs h no_fault = tt
alive-Ready (notify k x) runs h no_fault = tt
alive-Ready (collect i) runs h no_fault = tt
alive-Ready (pop i row) runs h no_fault = tt
alive-Ready (check i row ops) runs h no_fault = tt
alive-Ready (count i row) runs h no_fault = tt
alive-Ready (start i row b) runs h no_fault = tt
alive-Ready (again i) runs h no_fault = tt
alive-Ready request_stop runs h no_fault = tt
alive-Ready drain runs h no_fault = tt

-- one run for each item, from sequence k on
abbrev pub begin_all : ℕ → List ℕ → List Pc
begin_all k [] = []
begin_all k (x ∷ xs) = begin k x ∷ begin_all (suc k) xs

abbrev pub come_in : List ℕ → System Zip Pc
come_in xs = record { op = fresh (length xs); runs = begin_all 0 xs }

begin_all-Slots : (k : ℕ) (xs : List ℕ) → Slots k xs (begin_all k xs) (replicate (length xs) [])
begin_all-Slots k [] = tt
begin_all-Slots k (x ∷ xs) = (begins, begin_all-Slots (suc k) xs)

sum-begin_all :
    (w : Pc → ℕ) (m k : ℕ) (xs : List ℕ)
    → ((j x : ℕ) → w (begin j x) ≡ m)
    → sum w (begin_all k xs) ≡ length xs * m
sum-begin_all w m k [] same = omega arith
sum-begin_all w m k (x ∷ xs) same = grind (arith, same k x, sum-begin_all w m (suc k) xs same)

module _ (xs : List ℕ) (some_sequence : 1 ≤ length xs) (small : length xs < 2 ^ 31) where
  step :
      (s : System Zip Pc) (i : ℕ) (p : Pc)
      → Gathered xs s
      → get_elem? s.runs i ≡ some p
      → Ready p s.runs
      → Gathered xs (move advance Ready s i p) × Forward p
  step s i p (inl h) at ready =
      let (x, q, there, slot, of) = Slots-get 0 xs s.runs s.op.item_queues i p h.slots at in
      (
        gather_slot xs small s i x h of p q at there (subst (λ m. Slot m x p q) (omega arith) slot)
            ready,
        Slot-Forward (0 + i) x p q slot,
      )
  step s i p (inr h) at ready = (
    inr (finish_step xs s i p some_sequence h at ready),
    subst Forward (the_run xs s i p h at (not_done p s.runs ready))
        (Stage-Forward xs h.run s.op h.stage),
  )

  bounded :
      (s u : System Zip Pc) (n : ℕ)
      → Gathered xs s
      → Trace advance Ready s n u
      → (n + sum weight u.runs ≤ sum weight s.runs) × Gathered xs u
  bounded s u n g here = (omega arith, g)
  bounded s u n g (acts m t i p trace at ready) =
      let (le, h) = bounded s t m g trace in
      let (next, forward) = step t i p h at ready in
      (
        omega (
          arith,
          le,
          sum-set weight t.runs i p (advance p t.op).0 at,
          lowers p t.runs t.op forward ready,
        ),
        next,
      )

  no_fault : (s : System Zip Pc) (i : ℕ) → Gathered xs s → get_elem? s.runs i ≢ some faulted
  no_fault s i (inl h) at =
      let (x, q, there, slot, of) = Slots-get 0 xs s.runs s.op.item_queues i faulted h.slots at in
      slot_fault (0 + i) x q slot
    where
      slot_fault : (k x : ℕ) (q : List ℕ) → Slot k x faulted q → ⊥
      slot_fault k x q slot = elim slot [ ]
  no_fault s i (inr h) at = subst (λ p. Stage xs p s.op) (the_run xs s i faulted h at refl) h.stage

  come_in-Gathered : Gathered xs (come_in xs)
  come_in-Gathered = inl (record {
    slots = begin_all-Slots 0 xs;
    counted = omega (arith, sum-begin_all alive 1 0 xs (λ j x. refl));
    left = omega (arith, some_sequence, sum-begin_all alive 1 0 xs (λ j x. refl));
    rows = refl;
    running = refl;
  })

  row_made : (s : System Zip Pc) → Gathered xs s → (s.op.rows ≡ []) ⊎ (s.op.rows ≡ xs ∷ [])
  row_made s (inl h) = inl h.rows
  row_made s (inr h) = Stage-rows xs h.run s.op h.stage

  all_done : (s : System Zip Pc) → Gathered xs s → sum alive s.runs ≡ 0 → s.op.rows ≡ xs ∷ []
  all_done s (inl h) e = absurd (omega (arith, h.left, e))
  all_done s (inr h) e = Stage-done xs h.run s.op (omega (arith, h.alone, e)) h.stage

  -- Sequences with one item each (at least one of them and fewer than 2^31), whose items complete in
  -- any order of the actions of their runs, and nobody asks to stop. No more than eight actions for
  -- each item are possible, and none reads the front of an empty queue. As long as some run is not done,
  -- one can act. There is never more than one row, which has the items in the order of the sequences,
  -- and when all runs are done, it is there.
  pub single_items_make_one_row :
      (n : ℕ) (s : System Zip Pc)
      → Trace advance Ready (come_in xs) n s
      → (n ≤ length xs * 8)
        × ((i : ℕ) → get_elem? s.runs i ≢ some faulted)
        × (1 ≤ sum alive s.runs
            → (i : ℕ) × (p : Pc) × (get_elem? s.runs i ≡ some p) × Ready p s.runs)
        × ((s.op.rows ≡ []) ⊎ (s.op.rows ≡ xs ∷ []))
        × (sum alive s.runs ≡ 0 → s.op.rows ≡ xs ∷ [])
  single_items_make_one_row n s trace =
      let (le, g) = bounded (come_in xs) s n come_in-Gathered trace in
      (
        omega (arith, le, sum-begin_all weight 8 0 xs (λ j x. refl)),
        (λ i. no_fault s i g),
        (λ left.
            let (i, p, at, live) = sum-find alive s.runs left in
            (i, p, at, alive-Ready p s.runs live (λ e. no_fault s i g (at ∙ ap some e)))),
        row_made s g,
        all_done s g,
      )
