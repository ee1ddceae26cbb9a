-- ===== src/First/Holds.antt =====
-- What is counted of the runs of source/sio/sequence/first.hpp, and what holds of it.
use senders_io.Prelude.{
  sum, ℕ, ◌+◌, ◌≤◌, ◌≡◌, Bool, false, Option, none, some, List, arith, ◌==◌, if◌then◌else◌, length,
}
use senders_io.First.{Completion, Pc, running, construct, publish, sequence, Operation, busy}

abbrev pub building : Pc → ℕ
building (construct c) = 1
building publish = 1
building p = 0

abbrev pub publishing : Pc → ℕ
publishing publish = 1
publishing p = 0

abbrev pub unstarted : Pc → ℕ
unstarted (running c) = 1
unstarted p = 0

-- whether the sequence has yet to complete
abbrev pub waiting : Pc → ℕ
waiting (sequence e) = 1
waiting p = 0

abbrev pub filled : Option Completion → ℕ
filled none = 0
filled (some c) = 1

abbrev pub bit : Bool → ℕ
bit b = if b then 1 else 0

-- `total` is the number of the items.
pub record Holds (total : ℕ) (o : Operation) (runs : List Pc) : Type 0 where
  pub claimed : sum building runs ≡ bit (o.emplaced == 1)
  pub in_range : o.emplaced ≤ 2
  pub stored : filled o.result ≡ sum publishing runs + bit (o.emplaced == 2)
  pub fresh : o.emplaced ≡ 0 → sum unstarted runs ≡ total
  pub told : length o.completions + sum waiting runs ≡ 1
  pub stopped : o.item_stops + sum busy runs ≡ total
  pub early : 1 ≤ sum busy runs → sum waiting runs ≡ 1
  pub safe : 1 ≤ total → o.read_uninitialised ≡ false

pub building-le : (p : Pc) → building p ≤ busy p
building-le p = ground (arith, p)

pub unstarted-le : (p : Pc) → unstarted p ≤ busy p
unstarted-le p = ground (arith, p)

pub publishing-le : (p : Pc) → publishing p ≤ busy p
publishing-le p = ground (arith, p)

pub publishing-le-building : (p : Pc) → publishing p ≤ building p
publishing-le-building p = ground (arith, p)
