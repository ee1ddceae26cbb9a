-- ===== src/AsyncMutex.antt =====
-- source/sio/async_mutex.hpp: operations wait in a queue, and a thread that finds the mutex free
-- completes every operation of the queue before it lets go. Every call of `start` is a run of its
-- own with a program counter, and a schedule picks at each step one run, which does one atomic
-- action. A call of `start` inside a completion is such a run too, which goes on before the run that
-- called it. The atomic queue is that of stdexec, a parameter. The exchanges of locked_ and the accesses
-- of the queue are sequentially consistent, but the store of false to locked_ is a release store, which
-- other threads may see later than the look at the queue that follows it: a run at `unlock` may be
-- delayed, so that it looks first and its store comes after.
pub mod Drain
pub mod Lost
pub mod Once
pub mod Ordered
pub mod Progress
pub mod Tests
use senders_io.Prelude.{
  ℕ, ◌+◌, ◌≡◌, Bool, true, false, some, List, [], ◌∷◌, ◌==◌, if◌then◌else◌, length, get_elem?, set,
}

-- An operation is named by a number.
abbrev pub Op : Type 0
Op = ℕ

-- how often an operation stands in a list
abbrev pub count : Op → List Op → ℕ
count a [] = 0
count a (x ∷ xs) = (if a == x then 1 else 0) + count a xs

-- `exec::__atomic_intrusive_queue`: `pop_all` takes the operations out, in an order that is not
-- relied on.
pub record AtomicQueue : Type 1 where
  pub Carrier : Type 0
  pub fresh : Carrier
  pub push : Op → Carrier → Carrier
  pub pop_all : Carrier → List Op × Carrier
  pub is_empty : Carrier → Bool
  pub items : Carrier → List Op
  pub items-fresh : items fresh ≡ []
  pub items-push : (a : Op) (q : Carrier) → items (push a q) ≡ a ∷ items q
  pub items-pop_all : (q : Carrier) → items (pop_all q).1 ≡ []
  pub count-pop_all : (a : Op) (q : Carrier) → count a (pop_all q).0 ≡ count a (items q)
  pub length-pop_all : (q : Carrier) → length (pop_all q).0 ≡ length (items q)
  pub is_empty-items : (q : Carrier) → is_empty q ≡ (length (items q) == 0)

-- What a run of `start` does next.
pub data Pc : Type 0 where
  -- push the operation on the queue
  push_front : Op → Pc
  -- try to set locked_ from false to true
  try_lock : Pc
  -- take what is in the queue
  pop_all : Pc
  -- complete the first of the operations that it took
  complete : Op → List Op → Pc
  -- set locked_ to false
  unlock : Pc
  -- look whether the queue is empty
  check : Pc
  -- the same, while the store of false to locked_ has not been seen by other runs
  check_early : Pc
  -- that store, which is seen after the look, where the queue was empty (true) or not
  store_late : Bool → Pc
  -- `start` has returned
  returned : Pc

-- the head of each inner loop: go on with the operations, or take what has come in since
abbrev pub after_complete : List Op → Pc
after_complete [] = pop_all
after_complete (op ∷ ops) = complete op ops

-- the head of the loop around them
abbrev pub after_pop_all : List Op → Pc
after_pop_all [] = unlock
after_pop_all (op ∷ ops) = complete op ops

module _ (queue : AtomicQueue) where
  open queue use {Carrier}

  -- The members of the mutex, and the completions so far, the last one first.
  pub record Mutex : Type 0 where
    pub locked : Bool
    pub inflight_operations : Carrier
    pub completed : List Op

  -- one atomic action of `start`
  unfoldable pub advance : Pc → Mutex → Pc × Mutex
  advance (push_front op) m =
      (try_lock, record m { inflight_operations = queue.push op m.inflight_operations })
  advance try_lock m = if m.locked then (returned, m) else (pop_all, record m { locked = true })
  advance pop_all m =
      let (pending_ops, rest) = queue.pop_all m.inflight_operations in
      (after_pop_all pending_ops, record m { inflight_operations = rest })
  advance (complete next pending_ops) m =
      (after_complete pending_ops, record m { completed = next ∷ m.completed })
  advance unlock m = (check, record m { locked = false })
  advance check m = (if queue.is_empty m.inflight_operations then returned else try_lock, m)
  advance check_early m = (store_late (queue.is_empty m.inflight_operations), m)
  advance (store_late was_empty) m =
      (if was_empty then returned else try_lock, record m { locked = false })
  advance returned m = (returned, m)

  pub record System : Type 0 where
    pub mutex : Mutex
    pub runs : List Pc
    -- the operations that were started
    pub started : List Op

  abbrev pub init : System
  init = record {
    mutex = record { locked = false; inflight_operations = queue.fresh; completed = [] };
    runs = [];
    started = [];
  }

  abbrev pub start : Op → System → System
  start op s = record s { runs = push_front op ∷ s.runs; started = op ∷ s.started }

  abbrev pub move : System → ℕ → Pc → System
  move s i pc = record s {
    mutex = (advance pc s.mutex).1;
    runs = set s.runs i (advance pc s.mutex).0;
  }

  abbrev pub delay : System → ℕ → System
  delay s i = record s { runs = set s.runs i check_early }

  -- A call of `start`, an action of one of the runs, or, where stores may be late, the delay of one.
  pub data Step (may_delay : Bool) (s : System) : System → Type 0 where
    calls : (op : Op) → Step may_delay s (start op s)
    acts : (i : ℕ) (pc : Pc) → get_elem? s.runs i ≡ some pc → Step may_delay s (move s i pc)
    delays :
        (i : ℕ) → may_delay ≡ true → get_elem? s.runs i ≡ some unlock → Step may_delay s (delay s i)

  pub data Reach (may_delay : Bool) : System → Type 0 where
    begins : Reach may_delay init
    later : {s t : System} → Reach may_delay s → Step may_delay s t → Reach may_delay t
