-- ===== src/AsyncMutex/Once.antt =====
-- The operations that were started are kept, and where stores are not late they are all completed, as
-- often as they were started.
use senders_io.Prelude.{
  sum, sum-set, ℕ, ◌+◌, ◌≡◌, refl, sym, ap, ◌∙◌, inl, inr, Bool, true, false, List, [], ◌∷◌, arith,
  ◌==◌, if◌then◌else◌, Bool-cases, length,
}
use senders_io.AsyncMutex.{
  Op, count, AtomicQueue, Pc, push_front, try_lock, pop_all, complete, unlock, check, check_early,
  store_late, returned, Mutex, advance, System, calls, acts, delays, Reach, begins, later,
  after_complete, after_pop_all,
}
use senders_io.AsyncMutex.Drain.{bit, drains}
use senders_io.AsyncMutex.Ordered.{attends, Ordered, Reach-Ordered}

-- how often a run has the operation in its hands
abbrev pub held : Op → Pc → ℕ
held a (push_front op) = if a == op then 1 else 0
held a try_lock = 0
held a pop_all = 0
held a (complete op ops) = count a (op ∷ ops)
held a unlock = 0
held a check = 0
held a check_early = 0
held a (store_late b) = 0
held a returned = 0

-- a run that has not returned
abbrev pub busy : Pc → ℕ
busy p = elim p [ returned ↦ 0 | _ ↦ 1 ]

held-after_pop_all : (a : Op) (ops : List Op) → held a (after_pop_all ops) ≡ count a ops
held-after_pop_all a [] = refl
held-after_pop_all a (op ∷ ops) = refl

held-after_complete : (a : Op) (ops : List Op) → held a (after_complete ops) ≡ count a ops
held-after_complete a [] = refl
held-after_complete a (op ∷ ops) = refl

module _ (queue : AtomicQueue) where
  abbrev unfinished : Op → Mutex queue → ℕ
  unfinished a m = count a m.completed + count a (queue.items m.inflight_operations)

  advance-held :
      (a : Op) (p : Pc) (m : Mutex queue)
      → held a (advance queue p m).0 + unfinished a (advance queue p m).1
        ≡ held a p + unfinished a m
  unfolding advance
  advance-held a (push_front op) m = rw (queue.items-push op m.inflight_operations) (omega arith)
  advance-held a try_lock m = elim (Bool-cases m.locked) [ inl e ↦ rw e | inr e ↦ rw e ]
  advance-held a pop_all m =
      rw
        (
          held-after_pop_all a (queue.pop_all m.inflight_operations).0,
          queue.items-pop_all m.inflight_operations,
        )
        (omega (arith, queue.count-pop_all a m.inflight_operations))
  advance-held a (complete op ops) m = rw (held-after_complete a ops) (omega arith)
  advance-held a unlock m = refl
  advance-held a check m = elim (Bool-cases (queue.is_empty m.inflight_operations)) [
    | inl e ↦ rw e
    | inr e ↦ rw e
  ]
  advance-held a check_early m = refl
  advance-held a (store_late true) m = refl
  advance-held a (store_late false) m = refl
  advance-held a returned m = refl

  -- As often as an operation was started, it has been completed, or is in the queue, or in the hands
  -- of a run: none is lost, and none is completed twice.
  pub started_are_kept :
      (may_delay : Bool) (a : Op) (s : System queue)
      → Reach queue may_delay s
      → count a s.started
        ≡ count a s.mutex.completed
          + count a (queue.items s.mutex.inflight_operations)
          + sum (held a) s.runs
  started_are_kept b a _ begins = rw (queue.items-fresh) refl
  started_are_kept b a _ (later {s} r (calls op)) = omega (arith, started_are_kept b a s r)
  started_are_kept b a _ (later {s} r (delays i can at)) =
      omega (arith, started_are_kept b a s r, sum-set (held a) s.runs i unlock check_early at)
  started_are_kept b a _ (later {s} r (acts i p at)) = omega (
    arith,
    started_are_kept b a s r,
    advance-held a p s.mutex,
    sum-set (held a) s.runs i p (advance queue p s.mutex).0 at,
  )

  pub returned_weights :
      (w : Pc → ℕ) (ps : List Pc) → w returned ≡ 0 → sum busy ps ≡ 0 → sum w ps ≡ 0
  returned_weights w [] e h = refl
  returned_weights w (returned ∷ ps) e h = omega (arith, returned_weights w ps e (omega arith))
  returned_weights w (p ∷ ps) e h = absurd (omega arith)

  empty_of_length : (ops : List Op) → length ops ≡ 0 → ops ≡ []
  empty_of_length [] e = refl
  empty_of_length (op ∷ ops) e = absurd (omega arith)

  pub unlocked : (b : Bool) → bit b ≡ 0 → b ≡ false
  unlocked b e = ground arith

  -- Once every run of an ordered state has returned, nothing waits and all is completed.
  pub rest_completed :
      (may_delay : Bool) (a : Op) (s : System queue)
      → Reach queue may_delay s
      → Ordered queue s
      → sum busy s.runs ≡ 0
      → (s.mutex.locked ≡ false)
        × (queue.items s.mutex.inflight_operations ≡ [])
        × (count a s.mutex.completed ≡ count a s.started)
  rest_completed may_delay a s r h quiet = (
    unlocked s.mutex.locked (sym h.holder ∙ returned_weights drains s.runs refl quiet),
    nothing_waits,
    omega (
      arith,
      started_are_kept may_delay a s r,
      returned_weights (held a) s.runs refl quiet,
      ap (λ ops. count a ops) nothing_waits,
    ),
  )
    where
      nothing_waits : queue.items s.mutex.inflight_operations ≡ []
      nothing_waits = elim h.attended [
        | inl e ↦ empty_of_length (queue.items s.mutex.inflight_operations) e
        | inr le ↦ absurd (omega (arith, returned_weights attends s.runs refl quiet))
      ]

  -- Where no store of false to locked_ is seen later than the look at the queue that follows it: when
  -- every call of `start` has returned, the mutex is free, the queue is empty, and every operation has
  -- been completed as often as it was started.
  pub all_completed :
      (a : Op) (s : System queue)
      → Reach queue false s
      → sum busy s.runs ≡ 0
      → (s.mutex.locked ≡ false)
        × (queue.items s.mutex.inflight_operations ≡ [])
        × (count a s.mutex.completed ≡ count a s.started)
  all_completed a s r = rest_completed false a s r (Reach-Ordered queue s r)
