-- ===== src/First.antt =====
-- source/sio/sequence/first.hpp, for sequences whose items may run at the same time: the first item
-- that completes gives the result of the whole. Runs are those of Interleaving: one is the sequence,
-- the others are its items. The variant for lock-step sequences is not modelled.
pub mod Holds
pub mod Invariant
pub mod Once
pub mod Winner
pub mod Tests
use senders_io.Prelude.{
  sum, ℕ, ◌+◌, ◌≡◌, Bool, true, false, Option, none, some, List, [], ◌∷◌, map, ◌==◌, if◌then◌else◌,
}
use senders_io.Interleaving.{System}

-- a completion with its arguments, as the tuples of ResultVariant hold it
pub data Completion : Type 0 where
  set_value : ℕ → Completion
  set_stopped : Completion
  set_error : ℕ → Completion

-- how the sequence itself ends
pub data End : Type 0 where
  value : End
  stopped : End
  error : ℕ → End

-- What a receiver does next.
pub data Pc : Type 0 where
  -- an item completes: the compare-exchange of emplaced_ from 0 to 1
  running : Completion → Pc
  -- construct result_
  construct : Completion → Pc
  -- set emplaced_ to 2
  publish : Pc
  -- set_stopped of the receiver of the item
  stop_item : Pc
  done : Pc
  -- the sequence completes
  sequence : End → Pc
  finished : Pc

-- The members of operation_base, what the receivers were told, and whether result_ was read before it
-- was constructed.
pub record Operation : Type 0 where
  pub result : Option Completion
  pub emplaced : ℕ
  pub item_stops : ℕ
  pub completions : List Completion
  pub read_uninitialised : Bool

abbrev pub complete : Operation → Completion → Operation
complete o c = record o { completions = c ∷ o.completions }

-- std::visit of result_
abbrev pub visit : Option Completion → Operation → Operation
visit none o = record o { read_uninitialised = true }
visit (some c) o = complete o c

-- result_type::visit_result, where set_stopped does not return
unfoldable pub visit_result : Operation → Operation
visit_result o =
    let told : Operation = if o.emplaced == 0 then complete o set_stopped else o in
    visit told.result told

-- one atomic action of a receiver
unfoldable pub advance : Pc → Operation → Pc × Operation
unfolding visit_result
advance (running c) o =
    if o.emplaced == 0 then (construct c, record o { emplaced = 1 }) else (stop_item, o)
advance (construct c) o = (publish, record o { result = some c })
advance publish o = (stop_item, record o { emplaced = 2 })
advance stop_item o = (done, record o { item_stops = o.item_stops + 1 })
advance done o = (done, o)
advance (sequence value) o = (finished, visit_result o)
advance (sequence stopped) o = (finished, complete o set_stopped)
advance (sequence (error e)) o = (finished, complete o (set_error e))
advance finished o = (finished, o)

-- whether an item has yet to complete
abbrev pub busy : Pc → ℕ
busy (running c) = 1
busy (construct c) = 1
busy publish = 1
busy stop_item = 1
busy p = 0

-- A sequence completes after its items.
abbrev pub Ready : Pc → List Pc → Type 0
Ready done runs = ⊥
Ready finished runs = ⊥
Ready (sequence e) runs = sum busy runs ≡ 0
Ready p runs = Unit

-- the constructor and start, for a sequence that will end so, and the completions of its items
abbrev pub init : End → List Completion → System Operation Pc
init last items = record {
  op = record {
    result = none;
    emplaced = 0;
    item_stops = 0;
    completions = [];
    read_uninitialised = false;
  };
  runs = sequence last ∷ map running items;
}
