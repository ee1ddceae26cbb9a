-- ===== src/Zip/End.antt =====
-- How the sequences of source/sio/sequence/zip.hpp end: the last one to end completes the receiver of
-- the whole, and those before it ask the others to stop. A run, as those of Interleaving, is a sequence:
-- first its items that fail, one after the other, and then its end. The count of the sequences, the
-- store of an error under stop_mutex_ and the stop request are actions of their own. Whether the token of
-- the receiver was asked to stop does not change in a run.
use senders_io.Prelude.{
  ℕ, ◌-◌, Bool, true, false, Option, none, some, List, [], ◌∷◌, map, ltb, if◌then◌else◌, length,
}
use senders_io.Interleaving.{System}

-- how a sequence ends
pub data End : Type 0 where
  value : End
  stopped : End
  error : ℕ → End

-- what the receiver of the whole is told
pub data Completion : Type 0 where
  set_value : Completion
  set_stopped : Completion
  set_error : ℕ → Completion
  value_unless_stopped : Completion

-- What a sequence does next.
pub data Pc : Type 0 where
  -- an item fails, and notify_error stores its error; without a failed item left, the end of the
  -- sequence and the count of it
  items : List ℕ → End → Pc
  -- request_stop of notify_error, after an item
  item_stop : List ℕ → End → Pc
  -- notify_error and notify_stop of a sequence that is not the last
  store : ℕ → Pc
  stop : Pc
  -- the last sequence completes the receiver
  finish : End → Pc
  done : Pc

-- The members of operation_base that the receivers use, and the completions.
pub record Ending : Type 0 where
  pub n_pending_operations : ℕ
  pub errors : Option ℕ
  pub stop_requested : Bool
  pub completions : List Completion

abbrev pub complete : Ending → Completion → Ending
complete o c = record o { completions = c ∷ o.completions }

-- the error that notify_error stores, when there was none before
abbrev pub first_error : Option ℕ → ℕ → Option ℕ
first_error none e = some e
first_error (some d) e = some d

-- what the last receiver tells: set_value, set_stopped and set_error
unfoldable pub last_value : Bool → Option ℕ → Completion
last_value true errors = set_stopped
last_value false none = set_value
last_value false (some e) = set_error e

unfoldable pub last_completion : Bool → End → Ending → Completion
unfolding last_value
last_completion token value o = last_value token o.errors
last_completion token stopped o = if o.stop_requested then value_unless_stopped else set_stopped
last_completion token (error e) o = set_error e

-- what a receiver does after the count, where it is not the last
abbrev pub after_count : End → Pc
after_count value = stop
after_count stopped = stop
after_count (error e) = store e

abbrev pub Ready : Pc → List Pc → Type 0
Ready done runs = ⊥
Ready p runs = Unit

-- one atomic action of a sequence
unfoldable pub advance : Bool → Pc → Ending → Pc × Ending
unfolding last_completion
advance token (items (x ∷ xs) e) o = (item_stop xs e, record o { errors = first_error o.errors x })
advance token (items [] e) o = (
  if ltb 1 o.n_pending_operations then after_count e else finish e,
  record o { n_pending_operations = o.n_pending_operations - 1 },
)
advance token (item_stop xs e) o = (items xs e, record o { stop_requested = true })
advance token (store e) o = (stop, record o { errors = first_error o.errors e })
advance token stop o = (done, record o { stop_requested = true })
advance token (finish e) o = (done, complete o (last_completion token e o))
advance token done o = (done, o)

-- a sequence: the errors of its items, and its end
pub record Sequence : Type 0 where
  pub failed_items : List ℕ
  pub ends : End

abbrev pub run_of : Sequence → Pc
run_of s = items s.failed_items s.ends

abbrev pub begun : List Sequence → System Ending Pc
begun sequences = record {
  op = record {
    n_pending_operations = length sequences;
    errors = none;
    stop_requested = false;
    completions = [];
  };
  runs = map run_of sequences;
}
