-- ===== src/Interleaving.antt =====
-- Runs that share a state: how the receivers of the sequence algorithms (source/sio/sequence) act on
-- the operation that they belong to. A run is a program counter; a schedule picks at each step one
-- run that is ready, which does one atomic action.
use senders_io.Prelude.{
  sum, sum-set, ℕ, zero, suc, ◌+◌, ◌≤◌, ◌<◌, ◌≡◌, some, List, arith, get_elem?, set,
}

pub record System (Op Pc : Type 0) : Type 0 where
  pub op : Op
  pub runs : List Pc

module _ {Op Pc : Type 0} (advance : Pc → Op → Pc × Op) (Ready : Pc → List Pc → Type 0) where
  abbrev pub move : System Op Pc → ℕ → Pc → System Op Pc
  move s i pc = record { op = (advance pc s.op).1; runs = set s.runs i (advance pc s.op).0 }

  -- n actions lead from s to the other state
  pub data Trace (s : System Op Pc) : ℕ → System Op Pc → Type 0 where
    here : Trace s zero s
    acts :
        (n : ℕ) (t : System Op Pc) (i : ℕ) (pc : Pc)
        → Trace s n t
        → get_elem? t.runs i ≡ some pc
        → Ready pc t.runs
        → Trace s (suc n) (move t i pc)

  -- What each action keeps, holds at the end of a path.
  pub Trace-keeps {ℓ} :
      (P : System Op Pc → Type ℓ)
      → ((t : System Op Pc) (i : ℕ) (pc : Pc)
          → P t
          → get_elem? t.runs i ≡ some pc
          → Ready pc t.runs
          → P (move t i pc))
      → {s u : System Op Pc} {n : ℕ} → P s
      → Trace s n u
      → P u
  Trace-keeps P keep p here = p
  Trace-keeps P keep p (acts n t i pc path at ready) =
      keep t i pc (Trace-keeps P keep p path) at ready

  -- Where each action lowers the weight of its run, the weights bound the number of actions.
  pub Trace-le :
      (weight : Pc → ℕ)
      → ((pc : Pc) (runs : List Pc) (op : Op)
          → Ready pc runs
          → weight (advance pc op).0 < weight pc)
      → {s u : System Op Pc} {n : ℕ} → Trace s n u
      → n + sum weight u.runs ≤ sum weight s.runs
  Trace-le weight lowers here = omega arith
  Trace-le weight lowers (acts n t i pc path at ready) = omega (
    arith,
    Trace-le weight lowers path,
    sum-set weight t.runs i pc (advance pc t.op).0 at,
    lowers pc t.runs t.op ready,
  )
