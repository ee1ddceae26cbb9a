-- ===== src/MergeEach.antt =====
-- source/sio/sequence/merge_each.hpp: several sequences run at once, and the receiver of the whole is
-- completed when the last one is done, with an error if one of them has failed. Each sequence is a
-- run with a program counter, and a schedule picks at each step one run, which does one atomic
-- action. Items are passed on and change nothing.
pub mod Holds
pub mod Invariant
pub mod Once
pub mod Tests
use senders_io.Prelude.{
  ℕ, ◌-◌, ◌≡◌, Bool, true, false, Option, none, some, List, [], ◌∷◌, map, ◌==◌, if◌then◌else◌,
  length, get_elem?, set,
}

-- how a sequence will complete
pub data Outcome : Type 0 where
  set_value : Outcome
  set_stopped : Outcome
  set_error : ℕ → Outcome

-- What the receiver of a sequence does next.
pub data Pc : Type 0 where
  -- the sequence is running
  running : Outcome → Pc
  -- emplace the error, once error_emplaced_ has gone from 0 to 1
  emplace : ℕ → Pc
  -- set error_emplaced_ to 2
  publish : Pc
  -- request the other sequences to stop
  request_stop : Pc
  -- count down n_pending_ops_
  leave : Pc
  -- complete the receiver of the whole
  deliver : Pc
  finished : Pc

-- What the receiver of the whole is told: an error, or set_value_unless_stopped.
pub data Result : Type 0 where
  error : ℕ → Result
  value_unless_stopped : Result

-- The members of operation_base, and the completions so far.
pub record Operation : Type 0 where
  pub n_pending_ops : ℕ
  pub errors : Option ℕ
  pub error_emplaced : ℕ
  pub stop_requested : Bool
  pub results : List Result

-- std::visit of the errors, where monostate is no error
abbrev pub visit : Option ℕ → List Result → List Result
visit none results = results
visit (some e) results = error e ∷ results

-- the second half of complete
abbrev pub answer : Operation → List Result
answer o =
    if o.error_emplaced == 2 then visit o.errors o.results else value_unless_stopped ∷ o.results

-- one atomic action of a receiver
unfoldable pub advance : Pc → Operation → Pc × Operation
advance (running set_value) o = (leave, o)
advance (running set_stopped) o = (request_stop, o)
advance (running (set_error e)) o =
    if o.error_emplaced == 0
    then (emplace e, record o { error_emplaced = 1 })
    else (request_stop, o)
advance (emplace e) o = (publish, record o { errors = some e })
advance publish o = (request_stop, record o { error_emplaced = 2 })
advance request_stop o = (leave, record o { stop_requested = true })
advance leave o = (
  if o.n_pending_ops == 1 then deliver else finished,
  record o { n_pending_ops = o.n_pending_ops - 1 },
)
advance deliver o = (finished, record o { results = answer o })
advance finished o = (finished, o)

pub record System : Type 0 where
  pub op : Operation
  pub runs : List Pc

-- the constructor and start, for sequences that will complete in these ways
abbrev pub init : List Outcome → System
init outcomes = record {
  op = record {
    n_pending_ops = length outcomes;
    errors = none;
    error_emplaced = 0;
    stop_requested = false;
    results = [];
  };
  runs = map running outcomes;
}

abbrev pub move : System → ℕ → Pc → System
move s i pc = record { op = (advance pc s.op).1; runs = set s.runs i (advance pc s.op).0 }

pub data Step (s : System) : System → Type 0 where
  acts : (i : ℕ) (pc : Pc) → get_elem? s.runs i ≡ some pc → Step s (move s i pc)

pub data Reach (outcomes : List Outcome) : System → Type 0 where
  begins : Reach outcomes (init outcomes)
  later : {s t : System} → Reach outcomes s → Step s t → Reach outcomes t
