-- ===== src/Zip/Stages.antt =====
-- The stages in which one run of source/sio/sequence/zip.hpp makes a row while all others are done.
use senders_io.Prelude.{
  sum, sum-set, sum-part, ==_iff, ℕ, ◌+◌, ◌≤◌, ◌≡◌, ◌≢◌, refl, sym, ap, subst, ◌∙◌, ◌⊎◌, inl, inr,
  false, Bool-cases, some-injective, some, List, [], ◌∷◌, ◌++◌, map, arith, ◌==◌, length, get_elem?,
  set, get_elem?-set_ne,
}
use senders_io.Interleaving.{System, move}
use senders_io.Zip.{
  Zip, Pc, begin, enqueue, notify, collect, pop, check, count, start, again, request_stop, drain,
  done, faulted, fronts, pop_fronts, has_item, collected, popped, advance, Ready,
}
use senders_io.Zip.Queues.{set-get}
use senders_io.Zip.Slots.{
  Slots, alive, single, fronts-single, pop_fronts-single, length-pop_fronts-single,
}

abbrev pub Stage : List ℕ → Pc → Zip → Type 0
Stage xs (collect i) o = (o.item_queues ≡ map single xs) × (o.rows ≡ [])
Stage xs (pop i row) o = (o.item_queues ≡ map single xs) × (o.rows ≡ []) × (row ≡ xs)
Stage xs (check i row ops) o =
    (o.item_queues ≡ pop_fronts (map single xs)) × (o.rows ≡ []) × (row ≡ xs)
Stage xs (count i row) o = (o.item_queues ≡ pop_fronts (map single xs)) × (o.rows ≡ []) × (row ≡ xs)
Stage xs (start i row b) o = (o.rows ≡ []) × (row ≡ xs) × (b ≡ false)
Stage xs done o = o.rows ≡ xs ∷ []
Stage xs p o = ⊥

-- where the pair of a program counter and a state is in a stage
abbrev pub Staged : List ℕ → Pc × Zip → Type 0
Staged xs s = Stage xs s.0 s.1 × (s.1.stop_requested ≡ false)

pub Stage-step :
    (xs : List ℕ) (p : Pc) (o : Zip) (runs : List Pc)
    → 1 ≤ length xs
    → Stage xs p o
    → o.stop_requested ≡ false
    → Ready p runs
    → Staged xs (advance p o)
unfolding advance
Stage-step xs (collect i) o runs le h running ready =
    subst (λ k. Staged xs (k, o)) (sym (ap (collected i) (ap fronts h.0 ∙ fronts-single xs)))
      ((h.0, h.1, refl), running)
Stage-step xs (pop i row) o runs le h running ready =
    subst (λ f. Staged xs (popped i row f o)) (sym (ap fronts h.0 ∙ fronts-single xs))
      ((ap pop_fronts h.0, h.1, h.2), running)
Stage-step xs (check i row ops) o runs le h running ready = rw running (h, refl)
Stage-step xs (count i row) o runs le h running ready = rw few ((h.1, h.2, refl), running)
  where
    few : (sum has_item o.item_queues == length o.item_queues) ≡ false
    few = rw h.0 (ground (arith, le, pop_fronts-single xs, length-pop_fronts-single xs))
Stage-step xs (start i row b) o runs le h running ready = rw h.2 (one_row, running)
  where
    one_row : o.rows ++ (row ∷ []) ≡ xs ∷ []
    one_row = rw (h.0, h.1) refl
Stage-step xs done o runs le h running ready = absurd ready
Stage-step xs (begin k x) o runs le h running ready = absurd h
Stage-step xs (enqueue k x) o runs le h running ready = absurd h
Stage-step xs (notify k x) o runs le h running ready = absurd h
Stage-step xs (again k) o runs le h running ready = absurd h
Stage-step xs request_stop o runs le h running ready = absurd h
Stage-step xs drain o runs le h running ready = absurd h
Stage-step xs faulted o runs le h running ready = absurd h

pub not_done : (p : Pc) (runs : List Pc) → Ready p runs → alive p ≡ 1
not_done (begin k x) runs r = refl
not_done (enqueue k x) runs r = refl
not_done (notify k x) runs r = refl
not_done (collect i) runs r = refl
not_done (pop i row) runs r = refl
not_done (check i row ops) runs r = refl
not_done (count i row) runs r = refl
not_done (start i row b) runs r = refl
not_done (again i) runs r = refl
not_done request_stop runs r = refl
not_done drain runs r = refl
not_done done runs r = absurd r
not_done faulted runs r = absurd r

pub record Gathers (xs : List ℕ) (s : System Zip Pc) : Type 0 where
  pub slots : Slots 0 xs s.runs s.op.item_queues
  pub counted : s.op.n_ready_next_items + sum alive s.runs ≡ length xs
  pub left : 1 ≤ sum alive s.runs
  pub rows : s.op.rows ≡ []
  pub running : s.op.stop_requested ≡ false

pub record Finishes (xs : List ℕ) (s : System Zip Pc) : Type 0 where
  pub index : ℕ
  pub run : Pc
  pub at : get_elem? s.runs index ≡ some run
  pub alone : sum alive s.runs ≡ alive run
  pub stage : Stage xs run s.op
  pub running : s.op.stop_requested ≡ false

abbrev pub Gathered : List ℕ → System Zip Pc → Type 0
Gathered xs s = Gathers xs s ⊎ Finishes xs s

pub two_alive :
    (runs : List Pc) (i j : ℕ) (p q : Pc)
    → get_elem? runs i ≡ some p
    → get_elem? runs j ≡ some q
    → i ≢ j
    → alive p + alive q ≤ sum alive runs
two_alive runs i j p q at other differ = omega (
  arith,
  sum-set alive runs i p done at,
  sum-part alive (set runs i done) j q (get_elem?-set_ne runs done differ ∙ other),
)

-- only one run is left, so that one that is not done is it
pub the_run :
    (xs : List ℕ) (s : System Zip Pc) (i : ℕ) (p : Pc) (h : Finishes xs s)
    → get_elem? s.runs i ≡ some p
    → alive p ≡ 1
    → h.run ≡ p
the_run xs s i p h at live = elim (Bool-cases (h.index == i)) [
  | inl same ↦
      some-injective h.run p (sym h.at ∙ ap (get_elem? s.runs) ((==_iff h.index i).0 same) ∙ at)
  | inr other ↦ absurd (
      omega (
        arith,
        two_alive s.runs h.index i h.run p h.at at
            (λ e. absurd (cc ((==_iff h.index i).1 e, other))),
        h.alone,
        live,
      ))
]

pub finish_step :
    (xs : List ℕ) (s : System Zip Pc) (i : ℕ) (p : Pc)
    → 1 ≤ length xs
    → Finishes xs s
    → get_elem? s.runs i ≡ some p
    → Ready p s.runs
    → Finishes xs (move advance Ready s i p)
finish_step xs s i p le h at ready =
    let e : h.run ≡ p = the_run xs s i p h at (not_done p s.runs ready) in
    let (stage, running) =
      Stage-step xs p s.op s.runs le (subst (λ r. Stage xs r s.op) e h.stage) h.running ready in
    record {
      index = i;
      run = (advance p s.op).0;
      at = set-get s.runs i p (advance p s.op).0 at;
      alone = omega (arith, sum-set alive s.runs i p (advance p s.op).0 at, h.alone, ap alive e);
      stage = stage;
      running = running;
    }
