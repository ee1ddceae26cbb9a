-- ===== src/Zip.antt =====
-- source/sio/sequence/zip.hpp: the items of several sequences wait in a queue for each sequence, and as
-- soon as every queue has one, the first ones are taken and make an item of the zipped sequence. An
-- item stands for the operation that waits and for its result. Runs are those of Interleaving; what a
-- run does while it holds the mutexes is one action. How an item of the zipped sequence completes is
-- not followed.
pub mod Queues
pub mod Feed
pub mod Columns
pub mod Rows
pub mod Race
pub mod Slots
pub mod Stages
pub mod Single
pub mod Together
pub mod End
pub mod EndsOnce
pub mod Tests
use senders_io.Prelude.{
  sum, ℕ, zero, suc, ◌+◌, ◌-◌, ◌%◌, ◌^◌, Bool, true, false, Option, none, some, List, [], ◌∷◌, ◌++◌,
  map, ◌==◌, if◌then◌else◌, length, set, get_or, replicate, ◌>>=◌,
}
use senders_io.Interleaving.{System}

-- an int of 32 bits in two's complement
unfoldable pub add32 : ℕ → ℕ → ℕ
add32 a b = (a + b) % 2 ^ 32

-- The members of operation_base, the items of the zipped sequence that were started, and the items
-- that were completed because of a stop.
pub record Zip : Type 0 where
  pub item_queues : List (List ℕ)
  pub n_ready_next_items : ℕ
  pub stop_requested : Bool
  pub rows : List (List ℕ)
  pub completed : List ℕ

-- the number of the sequences
abbrev pub n_results : Zip → ℕ
n_results o = length o.item_queues

-- the first items of all queues; `none` is a read through nullptr
abbrev pub fronts : List (List ℕ) → Option (List ℕ)
fronts [] = some []
fronts ([] ∷ qs) = none
fronts ((x ∷ q) ∷ qs) = do row ← fronts qs; some (x ∷ row)

-- what pop_front leaves of all queues
abbrev pub pop_fronts : List (List ℕ) → List (List ℕ)
pop_fronts [] = []
pop_fronts ([] ∷ qs) = [] ∷ pop_fronts qs
pop_fronts ((x ∷ q) ∷ qs) = q ∷ pop_fronts qs

-- whether a queue has an item
abbrev pub has_item : List ℕ → ℕ
has_item [] = 0
has_item (x ∷ q) = 1

abbrev pub is_front : ℕ → List ℕ → Bool
is_front x [] = false
is_front x (y ∷ q) = y == x

-- push_back_item_op, under the lock
unfoldable pub push_back : ℕ → ℕ → Zip → Zip
push_back index x o = record o {
  item_queues = set o.item_queues index (get_or o.item_queues index [] ++ (x ∷ []));
}

-- What a run does next.
pub data Pc : Type 0 where
  -- item_receiver::set_value: test stop_source_, and push_back_item_op
  begin : ℕ → ℕ → Pc
  enqueue : ℕ → ℕ → Pc
  -- notify_result_completion, with the steps as the source counts them
  notify : ℕ → ℕ → Pc
  collect : ℕ → Pc
  pop : ℕ → List ℕ → Pc
  check : ℕ → List ℕ → List ℕ → Pc
  count : ℕ → List ℕ → Pc
  start : ℕ → List ℕ → Bool → Pc
  again : ℕ → Pc
  -- notify_stop: request_stop, and the queues that are emptied
  request_stop : Pc
  drain : Pc
  done : Pc
  faulted : Pc

-- step 1, with a read of the front of each queue
abbrev pub collected : ℕ → Option (List ℕ) → Pc
collected index none = faulted
collected index (some row) = pop index row

-- step 2
abbrev pub popped : ℕ → List ℕ → Option (List ℕ) → Zip → Pc × Zip
popped index row none o = (faulted, o)
popped index row (some ops) o = (
  check index row ops,
  record o { item_queues = pop_fronts o.item_queues; n_ready_next_items = 2 ^ 32 - 1 },
)

-- step 6, with a read of the front of the own queue
abbrev pub next_front : ℕ → List ℕ → Pc
next_front index [] = faulted
next_front index (x ∷ q) = notify index x

abbrev pub join : List (List ℕ) → List ℕ
join [] = []
join (q ∷ qs) = q ++ join qs

-- one action of a run
unfoldable pub advance : Pc → Zip → Pc × Zip
unfolding push_back
advance (begin index x) o =
    if o.stop_requested
    then (done, record o { completed = o.completed ++ (x ∷ []) })
    else (enqueue index x, o)
advance (enqueue index x) o = (notify index x, push_back index x o)
advance (notify index x) o =
    if is_front x (get_or o.item_queues index [])
    then (
      if o.n_ready_next_items == n_results o - 1 then collect index else done,
      record o { n_ready_next_items = add32 o.n_ready_next_items 1 },
    )
    else (done, o)
advance (collect index) o = (collected index (fronts o.item_queues), o)
advance (pop index row) o = popped index row (fronts o.item_queues) o
advance (check index row ops) o =
    if o.stop_requested
    then (done, record o { completed = o.completed ++ ops })
    else (count index row, o)
advance (count index row) o =
    if sum has_item o.item_queues == n_results o
    then (start index row true, record o { n_ready_next_items = sum has_item o.item_queues - 1 })
    else (start index row false, record o { n_ready_next_items = sum has_item o.item_queues })
advance (start index row is_next_completion) o =
    (if is_next_completion then again index else done, record o { rows = o.rows ++ (row ∷ []) })
advance (again index) o = (next_front index (get_or o.item_queues index []), o)
advance request_stop o = (drain, record o { stop_requested = true })
advance drain o = (
  done,
  record o {
    item_queues = map (λ q. []) o.item_queues;
    n_ready_next_items = 0;
    completed = o.completed ++ join o.item_queues;
  },
)
advance done o = (done, o)
advance faulted o = (faulted, o)

abbrev pub Ready : Pc → List Pc → Type 0
Ready done runs = ⊥
Ready faulted runs = ⊥
Ready p runs = Unit

-- the constructor, for n sequences
abbrev pub fresh : ℕ → Zip
fresh n = record {
  item_queues = replicate n [];
  n_ready_next_items = 0;
  stop_requested = false;
  rows = [];
  completed = [];
}

-- one run alone, with fuel; `none` is a fault or the end of the fuel
unfoldable pub run_alone : ℕ → Pc → Zip → Option Zip
run_alone zero p o = none
run_alone (suc fuel) p o = elim p [
  | done ↦ some o
  | faulted ↦ none
  | q ↦ run_alone fuel (advance q o).0 (advance q o).1
]
