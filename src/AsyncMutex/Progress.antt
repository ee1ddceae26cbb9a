-- ===== src/AsyncMutex/Progress.antt =====
-- The loops of `start` end: without new calls, every schedule comes to rest.
use senders_io.Prelude.{
  sum, sum-set, sum_mono, ℕ, zero, suc, ◌+◌, ◌*◌, ◌≤◌, ◌<◌, ◌≡◌, refl, sym, ap, ◌∙◌, ◌≢◌, inl, inr,
  Bool, true, false, some, List, [], ◌∷◌, arith, ◌==◌, Bool-cases, length, get_elem?, set,
  length-set,
}
use senders_io.AsyncMutex.{
  Op, AtomicQueue, Pc, push_front, try_lock, pop_all, complete, unlock, check, check_early,
  store_late, returned, Mutex, advance, System, move, delay, after_pop_all,
}
use senders_io.AsyncMutex.Ordered.{waiting, Ordered}
use senders_io.AsyncMutex.Once.{busy}

-- What a run of N has to do yet while the queue is empty, and while it is not: then a run that has
-- unlocked the mutex may go round once more.
abbrev pub calm : ℕ → Pc → ℕ
calm n (push_front op) = 6 * n + 8
calm n try_lock = 5
calm n pop_all = 4
calm n (complete op ops) = 5 + length ops
calm n unlock = 3
calm n check = 1
calm n check_early = 2
calm n (store_late true) = 1
calm n (store_late false) = 6
calm n returned = 0

abbrev pub alert : ℕ → Pc → ℕ
alert n (push_front op) = 6 * n + 8
alert n try_lock = 6
alert n pop_all = 5
alert n (complete op ops) = 6 + length ops
alert n unlock = 9
alert n check = 7
alert n check_early = 8
alert n (store_late true) = 1
alert n (store_late false) = 7
alert n returned = 0

-- n runs, and a number of operations in the queue
abbrev pub measure : ℕ → ℕ → List Pc → ℕ
measure n zero ps = sum (calm n) ps
measure n (suc k) ps = sum (alert n) ps + suc k

calm≤alert : (n : ℕ) (p : Pc) → calm n p ≤ alert n p
calm≤alert n p = ground (arith, p)

alert≤calm : (n : ℕ) (p : Pc) → alert n p ≤ calm n p + 6
alert≤calm n p = ground (arith, p)

sum-alert : (n : ℕ) (ps : List Pc) → sum (alert n) ps ≤ sum (calm n) ps + 6 * length ps
sum-alert n [] = omega arith
sum-alert n (p ∷ ps) = omega (arith, sum-alert n ps, alert≤calm n p)

module _ (n : ℕ) (ps : List Pc) (i : ℕ) (p : Pc) (at : get_elem? ps i ≡ some p) where
  measure-set :
      (k : ℕ) (q : Pc)
      → calm n q < calm n p
      → alert n q < alert n p
      → measure n k (set ps i q) < measure n k ps
  measure-set zero q c a = omega (arith, sum-set (calm n) ps i p q at)
  measure-set (suc j) q c a = omega (arith, sum-set (alert n) ps i p q at)

  measure-set_waiting :
      (k : ℕ) (q : Pc) → k ≢ 0 → alert n q < alert n p → measure n k (set ps i q) < measure n k ps
  measure-set_waiting zero q real a = absurd (real refl)
  measure-set_waiting (suc j) q real a = omega (arith, sum-set (alert n) ps i p q at)

  -- a run that pushes an operation makes the others alert
  measure-pushed :
      (k : ℕ) (op : Op)
      → length ps ≡ n
      → p ≡ push_front op
      → measure n (suc k) (set ps i try_lock) < measure n k ps
  measure-pushed zero op len e =
      omega (arith, sum-set (alert n) ps i p try_lock at, sum-alert n ps, len, ap (alert n) e)
  measure-pushed (suc j) op len e =
      omega (arith, sum-set (alert n) ps i p try_lock at, ap (alert n) e)

  -- a run that takes the operations out of the queue calms the others
  measure-popped :
      (k : ℕ) (ops : List Op)
      → length ops ≡ k
      → p ≡ pop_all
      → measure n 0 (set ps i (after_pop_all ops)) < measure n k ps
  measure-popped zero [] len e = omega (arith, sum-set (calm n) ps i p unlock at, ap (calm n) e)
  measure-popped zero (op ∷ ops) len e = absurd (omega arith)
  measure-popped (suc j) [] len e = absurd (omega arith)
  measure-popped (suc j) (op ∷ ops) len e = omega (
    arith,
    sum-set (calm n) ps i p (complete op ops) at,
    sum-set (calm n) ps i p returned at,
    sum-set (alert n) ps i p returned at,
    sum_mono (calm n) (alert n) (set ps i returned) (calm≤alert n),
    ap (calm n) e,
    ap (alert n) e,
  )

some_left : (k : ℕ) → (k == 0) ≡ false → k ≢ 0
some_left k e = ground arith

module _ (queue : AtomicQueue) where
  abbrev pub work : System queue → ℕ
  work s = measure (length s.runs) (waiting queue s.mutex) s.runs

  -- the same, with the number of runs kept apart
  measure-advance :
      (p : Pc) (m : Mutex queue) (n : ℕ) (ps : List Pc) (i : ℕ)
      → get_elem? ps i ≡ some p
      → length ps ≡ n
      → busy p ≡ 1
      → measure n (waiting queue (advance queue p m).1) (set ps i (advance queue p m).0)
        < measure n (waiting queue m) ps
  unfolding advance
  measure-advance (push_front op) m n ps i at len b =
      rw (queue.items-push op m.inflight_operations)
        (measure-pushed n ps i (push_front op) at (waiting queue m) op len refl)
  measure-advance try_lock m n ps i at len b = elim (Bool-cases m.locked) [
    | inl e ↦
        rw e (measure-set n ps i try_lock at (waiting queue m) returned (omega arith) (omega arith))
    | inr e ↦
        rw e (measure-set n ps i try_lock at (waiting queue m) pop_all (omega arith) (omega arith))
  ]
  measure-advance pop_all m n ps i at len b = rw (queue.items-pop_all m.inflight_operations) (
      measure-popped n ps i pop_all at (waiting queue m) (queue.pop_all m.inflight_operations).0
        (queue.length-pop_all m.inflight_operations) refl)
  measure-advance (complete op []) m n ps i at len b =
      measure-set n ps i (complete op []) at (waiting queue m) pop_all (omega arith) (omega arith)
  measure-advance (complete op (x ∷ ops)) m n ps i at len b =
      measure-set n ps i (complete op (x ∷ ops)) at (waiting queue m) (complete x ops) (omega arith)
        (omega arith)
  measure-advance unlock m n ps i at len b =
      measure-set n ps i unlock at (waiting queue m) check (omega arith) (omega arith)
  measure-advance check m n ps i at len b =
      elim (Bool-cases (queue.is_empty m.inflight_operations)) [
        | inl e ↦
            rw e
              (measure-set n ps i check at (waiting queue m) returned (omega arith) (omega arith))
        | inr e ↦ rw e (
            measure-set_waiting n ps i check at (waiting queue m) try_lock
              (some_left (waiting queue m) (sym (queue.is_empty-items m.inflight_operations) ∙ e))
              (omega arith))
      ]
  measure-advance check_early m n ps i at len b =
      elim (Bool-cases (queue.is_empty m.inflight_operations)) [
        | inl e ↦ rw e (
            measure-set n ps i check_early at (waiting queue m) (store_late true) (omega arith)
              (omega arith))
        | inr e ↦ rw e (
            measure-set_waiting n ps i check_early at (waiting queue m) (store_late false)
              (some_left (waiting queue m) (sym (queue.is_empty-items m.inflight_operations) ∙ e))
              (omega arith))
      ]
  measure-advance (store_late true) m n ps i at len b =
      measure-set n ps i (store_late true) at (waiting queue m) returned (omega arith) (omega arith)
  measure-advance (store_late false) m n ps i at len b =
      measure-set n ps i (store_late false) at (waiting queue m) try_lock (omega arith)
        (omega arith)
  measure-advance returned m n ps i at len b = absurd (omega arith)

  -- n actions in a row of runs that have not returned, or delays
  pub data Acts (may_delay : Bool) (s : System queue) : ℕ → System queue → Type 0 where
    none_yet : Acts may_delay s 0 s
    one_more :
        {n : ℕ} {t : System queue}
        → Acts may_delay s n t
        → (i : ℕ) (p : Pc) → get_elem? t.runs i ≡ some p
        → busy p ≡ 1
        → Acts may_delay s (suc n) (move queue t i p)
    one_delay :
        {n : ℕ} {t : System queue}
        → Acts may_delay s n t
        → may_delay ≡ true
        → (i : ℕ) → get_elem? t.runs i ≡ some unlock
        → Acts may_delay s (suc n) (delay queue t i)

  -- While no operation is started, the runs that have not returned do at most as many actions as
  -- `work` counts, in whatever order they are picked and whichever stores are late: none of the loops
  -- of `start` goes on forever.
  pub schedules_end :
      (may_delay : Bool) (s t : System queue) (n : ℕ) → Acts may_delay s n t → n + work t ≤ work s
  schedules_end d s _ _ none_yet = omega arith
  schedules_end d s _ _ (one_more {t} a i p at b) =
      rw (length-set t.runs i (advance queue p t.mutex).0) (
        omega (
          arith,
          schedules_end d s t _ a,
          measure-advance p t.mutex (length t.runs) t.runs i at refl b,
        ))
  schedules_end d s _ _ (one_delay {t} a can i at) = rw (length-set t.runs i check_early) (
      omega (
        arith,
        schedules_end d s t _ a,
        measure-set (length t.runs) t.runs i unlock at (waiting queue t.mutex) check_early
            (omega arith) (omega arith),
      ))
