-- ===== src/AsyncResource.antt =====
-- source/sio/async_resource.hpp: a resource is opened, its token is passed on as an item, and when the
-- item has completed, the token is closed. Several resources are used at the same time, as runs of
-- Interleaving. exec::finally is not part of the repository: what it makes of the completions of its
-- two senders is a parameter.
pub mod Counts
pub mod Closed
pub mod Outcome
pub mod Tests
use senders_io.Prelude.{ℕ, Bool, true, false, List, [], ◌∷◌, if◌then◌else◌}

-- how open, an item and close complete
pub data Opened : Type 0 where
  token : ℕ → Opened
  open_error : ℕ → Opened
  open_stopped : Opened

pub data Done : Type 0 where
  value : Done
  error : ℕ → Done
  stopped : Done

-- what the receiver of the sequence is told
pub data Completion : Type 0 where
  set_value : Completion
  set_error : ℕ → Completion
  set_exception : Completion
  value_unless_stopped : Completion

-- what a resource does when it is used, and whether the connect of its item throws
pub record Resource : Type 0 where
  pub opens : Opened
  pub throws : Bool
  pub item : Done
  pub closes : Done

-- what an operation does next
pub data Pc : Type 0 where
  opening : Resource → Pc
  using_token : Resource → ℕ → Pc
  closing : Resource → ℕ → Pc
  final : Done → Pc
  ended : Pc

-- the tokens that were opened, passed on and closed, and the completions
pub record Log : Type 0 where
  pub opened : List ℕ
  pub used : List ℕ
  pub closed : List ℕ
  pub completions : List Completion

abbrev pub tell : Completion → Log → Log
tell c o = record o { completions = c ∷ o.completions }

-- final_receiver
unfoldable pub final_completion : Done → Completion
final_completion value = set_value
final_completion (error e) = set_error e
final_completion stopped = value_unless_stopped

-- open_receiver::set_value, set_error and set_stopped
unfoldable pub open_completes : Resource → Opened → Log → Pc × Log
open_completes r (token t) o =
    let kept : Log = record o { opened = t ∷ o.opened } in
    if r.throws then (ended, tell set_exception kept) else (using_token r t, kept)
open_completes r (open_error e) o = (ended, tell (set_error e) o)
open_completes r open_stopped o = (ended, tell value_unless_stopped o)

abbrev pub Ready : Pc → List Pc → Type 0
Ready ended runs = ⊥
Ready p runs = Unit

abbrev pub unused : Log
unused = record { opened = []; used = []; closed = []; completions = [] }

module _ (finally : Done → Done → Done) where
  -- operation::start, open_receiver, use_operation::start, close and final_receiver
  unfoldable pub advance : Pc → Log → Pc × Log
  unfolding open_completes final_completion
  advance (opening r) o = open_completes r r.opens o
  advance (using_token r t) o = (closing r t, record o { used = t ∷ o.used })
  advance (closing r t) o = (final (finally r.item r.closes), record o { closed = t ∷ o.closed })
  advance (final d) o = (ended, tell (final_completion d) o)
  advance ended o = (ended, o)
