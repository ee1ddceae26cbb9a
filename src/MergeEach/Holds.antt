-- ===== src/MergeEach/Holds.antt =====
-- What is counted of the runs of source/sio/sequence/merge_each.hpp, and what holds of it.
use senders_io.Prelude.{
  sum, sum-set, ℕ, ◌+◌, ◌≤◌, ◌≡◌, Bool, Option, none, some, List, arith, ◌==◌, if◌then◌else◌,
  get_elem?, set,
}
use senders_io.MergeEach.{
  set_error, Pc, running, emplace, publish, deliver, finished, Operation, Result,
}

abbrev pub pending : Pc → ℕ
pending deliver = 0
pending finished = 0
pending p = 1

-- whether a run is the last one, and has yet to deliver
abbrev pub delivers : Pc → ℕ
delivers deliver = 1
delivers p = 0

-- whether a run is writing the error
abbrev pub writes : Pc → ℕ
writes (emplace e) = 1
writes publish = 1
writes p = 0

-- whether it has written it
abbrev pub written : Pc → ℕ
written publish = 1
written p = 0

-- whether a run will fail
abbrev pub fails : Pc → ℕ
fails (running (set_error e)) = 1
fails p = 0

abbrev pub bit : Bool → ℕ
bit b = if b then 1 else 0

abbrev pub zero? : ℕ → ℕ
zero? n = bit (n == 0)

abbrev pub one? : ℕ → ℕ
one? n = bit (n == 1)

abbrev pub two? : ℕ → ℕ
two? n = bit (n == 2)

abbrev pub filled : Option ℕ → ℕ
filled none = 0
filled (some e) = 1

pub record Holds (failures : ℕ) (o : Operation) (runs : List Pc) : Type 0 where
  pub counted : o.n_pending_ops ≡ sum pending runs
  pub one_writer : sum writes runs ≡ one? o.error_emplaced
  pub in_range : o.error_emplaced ≤ 2
  pub stored : sum written runs + two? o.error_emplaced ≤ filled o.errors
  pub not_failed : o.error_emplaced ≡ 0 → sum fails runs ≡ failures
  pub has_failed : 1 ≤ o.error_emplaced → 1 ≤ failures

pub written≤writes : (p : Pc) → written p ≤ writes p
written≤writes p = ground (arith, p)

module _ (failures : ℕ) (o : Operation) (runs : List Pc) (h : Holds failures o runs) (i : ℕ) where
  -- an action that only moves on
  pub plain :
      (p q : Pc)
      → get_elem? runs i ≡ some p
      → pending q ≡ pending p
      → writes q ≡ writes p
      → written q ≡ written p
      → (o.error_emplaced ≡ 0 → fails q ≡ fails p)
      → Holds failures o (set runs i q)
  plain p q at a b c d = record {
    counted = omega (arith, h.counted, sum-set pending runs i p q at);
    one_writer = omega (arith, h.one_writer, sum-set writes runs i p q at);
    in_range = h.in_range;
    stored = omega (arith, h.stored, sum-set written runs i p q at);
    not_failed = λ e. omega (arith, h.not_failed e, sum-set fails runs i p q at, d e);
    has_failed = h.has_failed;
  }

pub filled_le : (e : Option ℕ) → filled e ≤ 1
filled_le none = omega arith
filled_le (some e) = omega arith

-- the invariant does not look at the results and the request to stop
pub forget :
    (failures : ℕ) (o : Operation) (runs : List Pc) (stop_requested : Bool) (results : List Result)
    → Holds failures o runs
    → Holds failures (record o { stop_requested = stop_requested; results = results }) runs
forget failures o runs stop_requested results h = record {
  counted = h.counted;
  one_writer = h.one_writer;
  in_range = h.in_range;
  stored = h.stored;
  not_failed = h.not_failed;
  has_failed = h.has_failed;
}
