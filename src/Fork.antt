-- ===== src/Fork.antt =====
-- source/sio/sequence/fork.hpp: each item of a sequence is copied into an operation of its own, which
-- goes on while the sequence asks for the next one, and the receiver of the whole is completed when
-- the count of references falls to 0. Runs are those of Interleaving: one is the sequence, one for
-- each of its items, and one for the stop callback where the receiver may be asked to stop.
pub mod Counter
pub mod Steps
pub mod Reached
pub mod Once
pub mod Outcome
pub mod Told
pub mod Result
pub mod Stop
pub mod Tests
use senders_io.Prelude.{
  sum, ℕ, ◌≤◌, ◌≡◌, Bool, true, false, Option, none, some, List, [], ◌∷◌, map, ◌==◌, if◌then◌else◌,
  add64, sub64,
}
use senders_io.Interleaving.{System}

-- how the sequence itself ends
pub data End : Type 0 where
  value : End
  stopped : End
  error : ℕ → End

-- how the inner operation of an item completes
pub data Work : Type 0 where
  succeeds : Work
  stops : Work

-- what async_new does for an item
pub data Allocation : Type 0 where
  allocated : Work → Allocation
  refused : ℕ → Allocation
  given_up : Allocation

-- what the receiver of the whole is told, where value_unless_stopped is exec's
pub data Completion : Type 0 where
  value_unless_stopped : Completion
  set_stopped : Completion
  set_error : ℕ → Completion

-- What a receiver does next.
pub data Pc : Type 0 where
  -- start: test stop_source_, and set ref_counter_ to 1
  starting : End → Pc
  opening : End → Pc
  -- the sequence completes
  sequence : End → Pc
  -- set_next is called for an item
  waiting : Allocation → Pc
  -- a round of the loop of increase_ref, with what it expects
  claim : ℕ → Allocation → Pc
  allocate : Allocation → Pc
  -- item_operation::start, and the completion of its inner operation
  start_item : Work → Pc
  work : Work → Pc
  -- set_error: the first compare-exchange, the error, and the second
  fail : ℕ → Pc
  emplace : ℕ → Pc
  publish : Pc
  -- request_stop: the exchange, and stop_source_
  ask_stop : Pc
  stop_source : Pc
  -- decrease_ref
  leave : Pc
  -- complete
  deliver : Pc
  done : Pc
  -- the stop callback is called
  callback : Pc

-- The members of operation_base, and what the receiver was told. ref_counter is a std::ptrdiff_t in
-- two's complement.
pub record Operation : Type 0 where
  pub ref_counter : ℕ
  pub is_stop_requested : Bool
  pub stop_requested : Bool
  pub completion_type : ℕ
  pub errors : Option ℕ
  pub completions : List Completion

abbrev pub tell : Operation → Completion → Operation
tell o c = record o { completions = c ∷ o.completions }

-- VisitError, where monostate is no error
abbrev pub visit : Option ℕ → Operation → Operation
visit none o = o
visit (some e) o = tell o (set_error e)

unfoldable pub complete : Operation → Operation
complete o =
    if o.completion_type == 3
    then tell o set_stopped
    else if o.completion_type == 2
    then visit o.errors o
    else tell o value_unless_stopped

-- one atomic action of a receiver
unfoldable pub advance : Pc → Operation → Pc × Operation
unfolding complete
advance (starting e) o = if o.stop_requested then (done, tell o set_stopped) else (opening e, o)
advance (opening e) o = (sequence e, record o { ref_counter = 1 })
advance (sequence value) o = (leave, o)
advance (sequence stopped) o = (ask_stop, record o { completion_type = 3 })
advance (sequence (error e)) o = (fail e, o)
advance (waiting a) o = (claim 1 a, o)
advance (claim expected a) o =
    if o.ref_counter == expected
    then (allocate a, record o { ref_counter = add64 expected 1 })
    else if o.ref_counter == 0
    then (ask_stop, o)
    else (claim o.ref_counter a, o)
advance (allocate (allocated w)) o = (start_item w, o)
advance (allocate (refused e)) o = (fail e, o)
advance (allocate given_up) o = (ask_stop, o)
advance (start_item w) o = (if o.stop_requested then leave else work w, o)
advance (work succeeds) o = (leave, o)
advance (work stops) o = (ask_stop, o)
advance (fail e) o =
    if o.completion_type == 0 then (emplace e, record o { completion_type = 1 }) else (ask_stop, o)
advance (emplace e) o = (publish, record o { errors = some e })
advance publish o =
    (ask_stop, if o.completion_type == 1 then record o { completion_type = 2 } else o)
advance ask_stop o =
    (if o.is_stop_requested then leave else stop_source, record o { is_stop_requested = true })
advance stop_source o = (leave, record o { stop_requested = true })
advance leave o =
    (if o.ref_counter == 1 then deliver else done, record o { ref_counter = sub64 o.ref_counter 1 })
advance deliver o = (done, complete o)
advance done o = (done, o)
advance callback o = (ask_stop, o)

-- whether the sequence is running
abbrev pub opened : Pc → ℕ
opened (sequence e) = 1
opened p = 0

-- whether a run is within the sender of set_next, up to the start of its item
abbrev pub asking : Pc → ℕ
asking (claim x a) = 1
asking (allocate a) = 1
asking (start_item w) = 1
asking p = 0

-- A sequence asks for items while it runs, and completes after the senders of set_next. It need not
-- wait here for what such a sender does after an item was refused.
abbrev pub Ready : Pc → List Pc → Type 0
Ready (waiting a) runs = 1 ≤ sum opened runs
Ready (sequence e) runs = sum asking runs ≡ 0
Ready done runs = ⊥
Ready p runs = Unit

abbrev pub fresh : Operation
fresh = record {
  ref_counter = 0;
  is_stop_requested = false;
  stop_requested = false;
  completion_type = 0;
  errors = none;
  completions = [];
}

-- start, for a sequence that will end so and its items, when nobody asks the receiver to stop
abbrev pub init : End → List Allocation → System Operation Pc
init last items = record { op = fresh; runs = starting last ∷ map waiting items }

-- the same, when the receiver is asked to stop at some time
abbrev pub init_with_stop : End → List Allocation → System Operation Pc
init_with_stop last items = record {
  op = fresh;
  runs = starting last ∷ callback ∷ map waiting items;
}
