-- ===== src/AsyncMutex/Drain.antt =====
-- Only the run that has set locked_ takes operations and completes them.
use senders_io.Prelude.{
  sum, sum-set, sum-part, ℕ, ◌+◌, ◌≤◌, ◌≡◌, refl, Bool, some, List, [], ◌∷◌, arith, if◌then◌else◌,
  get_elem?,
}
use senders_io.AsyncMutex.{
  AtomicQueue, Pc, push_front, try_lock, pop_all, complete, unlock, check, check_early, store_late,
  returned, Mutex, advance, System, move, calls, acts, delays, Reach, begins, later, after_complete,
  after_pop_all,
}

-- whether a run is between the exchange of locked_ and its store, as other runs see it
abbrev pub drains : Pc → ℕ
drains (push_front op) = 0
drains try_lock = 0
drains pop_all = 1
drains (complete op ops) = 1
drains unlock = 1
drains check = 0
drains check_early = 1
drains (store_late b) = 1
drains returned = 0

abbrev pub bit : Bool → ℕ
bit b = if b then 1 else 0

drains-after_pop_all : (ops : List ℕ) → drains (after_pop_all ops) ≡ 1
drains-after_pop_all [] = refl
drains-after_pop_all (op ∷ ops) = refl

drains-after_complete : (ops : List ℕ) → drains (after_complete ops) ≡ 1
drains-after_complete [] = refl
drains-after_complete (op ∷ ops) = refl

module _ (queue : AtomicQueue) where
  advance-drains :
      (p : Pc) (m : Mutex queue)
      → drains p ≤ bit m.locked
      → drains (advance queue p m).0 + bit m.locked ≡ drains p + bit (advance queue p m).1.locked
  unfolding advance
  advance-drains (push_front op) m le = omega arith
  advance-drains try_lock m le = ground arith
  advance-drains pop_all m le =
      rw (drains-after_pop_all (queue.pop_all m.inflight_operations).0) (omega arith)
  advance-drains (complete op ops) m le = rw (drains-after_complete ops) (omega arith)
  advance-drains unlock m le = ground arith
  advance-drains check m le = ground arith
  advance-drains check_early m le = omega arith
  advance-drains (store_late b) m le = ground arith
  advance-drains returned m le = omega arith

  pub act-drains :
      (s : System queue) (i : ℕ) (p : Pc)
      → sum drains s.runs ≡ bit s.mutex.locked
      → get_elem? s.runs i ≡ some p
      → sum drains (move queue s i p).runs ≡ bit (move queue s i p).mutex.locked
  act-drains s i p h at = omega (
    arith,
    h,
    sum-set drains s.runs i p (advance queue p s.mutex).0 at,
    advance-drains p s.mutex (omega (arith, h, sum-part drains s.runs i p at)),
  )

  -- The number of runs that are between their exchange of locked_ and their store, as the others see it,
  -- and that alone take operations and complete them, is 1 while locked_ is set, and 0 otherwise, in every
  -- state that can be reached, whichever stores are late.
  pub one_run_drains :
      (may_delay : Bool) (s : System queue)
      → Reach queue may_delay s
      → sum drains s.runs ≡ bit s.mutex.locked
  one_run_drains b _ begins = refl
  one_run_drains b _ (later {s} r (calls op)) = omega (arith, one_run_drains b s r)
  one_run_drains b _ (later {s} r (acts i p at)) = act-drains s i p (one_run_drains b s r) at
  one_run_drains b _ (later {s} r (delays i can at)) =
      omega (arith, one_run_drains b s r, sum-set drains s.runs i unlock check_early at)
