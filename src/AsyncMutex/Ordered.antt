-- ===== src/AsyncMutex/Ordered.antt =====
-- Where no store of async_mutex is late, operations that wait in the queue have a run that will see them.
use senders_io.Prelude.{
  sum, sum-set, sum-part, sum_mono, sum_add, ℕ, ◌+◌, ◌≤◌, ◌≡◌, refl, sym, ap, ◌∙◌, ◌⊎◌, inl, inr,
  true, false, some, List, [], ◌∷◌, arith, ==_iff, Bool-cases, length, get_elem?, set,
}
use senders_io.AsyncMutex.{
  AtomicQueue, Pc, push_front, try_lock, pop_all, complete, unlock, check, check_early, store_late,
  returned, Mutex, advance, System, move, calls, acts, delays, Reach, begins, later, after_complete,
  after_pop_all,
}
use senders_io.AsyncMutex.Drain.{bit, drains, act-drains}

-- whether a run will look at the queue once more
abbrev pub attends : Pc → ℕ
attends (push_front op) = 1
attends try_lock = 1
attends pop_all = 1
attends (complete op ops) = 1
attends unlock = 1
attends check = 1
attends check_early = 0
attends (store_late b) = 0
attends returned = 0

-- a store that is late
abbrev pub late : Pc → ℕ
late check_early = 1
late (store_late b) = 1
late p = 0

drains≤attends_late : (p : Pc) → drains p ≤ attends p + late p
drains≤attends_late p = ground (arith, p)

attends-after_pop_all : (ops : List ℕ) → attends (after_pop_all ops) ≡ 1
attends-after_pop_all [] = refl
attends-after_pop_all (op ∷ ops) = refl

attends-after_complete : (ops : List ℕ) → attends (after_complete ops) ≡ 1
attends-after_complete [] = refl
attends-after_complete (op ∷ ops) = refl

module _ (queue : AtomicQueue) where
  abbrev pub waiting : Mutex queue → ℕ
  waiting m = length (queue.items m.inflight_operations)

  -- No store is late, the run that has set locked_ is the one that drains, and whenever operations wait
  -- in the queue, they have a run that will see them.
  pub record Ordered (s : System queue) : Type 0 where
    pub none_late : sum late s.runs ≡ 0
    pub holder : sum drains s.runs ≡ bit s.mutex.locked
    pub attended : (waiting s.mutex ≡ 0) ⊎ (1 ≤ sum attends s.runs)

  still :
      (s : System queue) (i : ℕ) (p q : Pc)
      → get_elem? s.runs i ≡ some p
      → attends q ≡ 1
      → 1 ≤ sum attends (set s.runs i q)
  still s i p q at one =
      omega (arith, sum-set attends s.runs i p q at, sum-part attends s.runs i p at, one)

  -- a run that finds the mutex locked leaves the queue to the run that holds it
  leaves_to_holder :
      (s : System queue) (i : ℕ)
      → Ordered s
      → get_elem? s.runs i ≡ some try_lock
      → s.mutex.locked ≡ true
      → 1 ≤ sum attends (set s.runs i returned)
  leaves_to_holder s i h at locked = omega (
    arith,
    sum-set drains s.runs i try_lock returned at,
    h.holder ∙ ap bit locked,
    sum_mono drains (λ p. attends p + late p) (set s.runs i returned) drains≤attends_late,
    sum_add attends late (set s.runs i returned),
    sum-set late s.runs i try_lock returned at,
    h.none_late,
  )

  acts-attended :
      (s : System queue) (i : ℕ) (p : Pc)
      → Ordered s
      → get_elem? s.runs i ≡ some p
      → (waiting (move queue s i p).mutex ≡ 0) ⊎ (1 ≤ sum attends (move queue s i p).runs)
  unfolding advance
  acts-attended s i (push_front op) h at = inr (still s i (push_front op) try_lock at refl)
  acts-attended s i try_lock h at = elim (Bool-cases s.mutex.locked) [
    | inl locked ↦ inr (rw locked (leaves_to_holder s i h at locked))
    | inr free ↦ inr (rw free (still s i try_lock pop_all at refl))
  ]
  acts-attended s i pop_all h at = inr (
      still s i pop_all (after_pop_all (queue.pop_all s.mutex.inflight_operations).0) at
        (attends-after_pop_all (queue.pop_all s.mutex.inflight_operations).0))
  acts-attended s i (complete op ops) h at =
      inr (still s i (complete op ops) (after_complete ops) at (attends-after_complete ops))
  acts-attended s i unlock h at = inr (still s i unlock check at refl)
  acts-attended s i check h at = elim (Bool-cases (queue.is_empty s.mutex.inflight_operations)) [
    | inl none_left ↦ inl (
        (==_iff (waiting s.mutex) 0).0
          (sym (queue.is_empty-items s.mutex.inflight_operations) ∙ none_left))
    | inr some_left ↦ inr (rw some_left (still s i check try_lock at refl))
  ]
  acts-attended s i check_early h at =
      absurd (omega (arith, h.none_late, sum-part late s.runs i check_early at))
  acts-attended s i (store_late b) h at =
      absurd (omega (arith, h.none_late, sum-part late s.runs i (store_late b) at))
  acts-attended s i returned h at = elim h.attended [
    | inl e ↦ inl e
    | inr le ↦ inr (omega (arith, sum-set attends s.runs i returned returned at))
  ]

  late-after_pop_all : (ops : List ℕ) → late (after_pop_all ops) ≡ 0
  late-after_pop_all [] = refl
  late-after_pop_all (op ∷ ops) = refl

  late-after_complete : (ops : List ℕ) → late (after_complete ops) ≡ 0
  late-after_complete [] = refl
  late-after_complete (op ∷ ops) = refl

  advance-late : (p : Pc) (m : Mutex queue) → late p ≡ 0 → late (advance queue p m).0 ≡ 0
  unfolding advance
  advance-late (push_front op) m e = refl
  advance-late try_lock m e = ground arith
  advance-late pop_all m e = late-after_pop_all (queue.pop_all m.inflight_operations).0
  advance-late (complete op ops) m e = late-after_complete ops
  advance-late unlock m e = refl
  advance-late check m e = ground arith
  advance-late check_early m e = absurd (omega arith)
  advance-late (store_late b) m e = absurd (omega arith)
  advance-late returned m e = refl

  pub acts-Ordered :
      (s : System queue) (i : ℕ) (p : Pc)
      → Ordered s
      → get_elem? s.runs i ≡ some p
      → Ordered (move queue s i p)
  acts-Ordered s i p h at = record {
    none_late = omega (
      arith,
      h.none_late,
      sum-set late s.runs i p (advance queue p s.mutex).0 at,
      advance-late p s.mutex (omega (arith, h.none_late, sum-part late s.runs i p at)),
    );
    holder = act-drains queue s i p h.holder at;
    attended = acts-attended s i p h at;
  }

  -- Where stores are not late, every state is ordered.
  pub Reach-Ordered : (s : System queue) → Reach queue false s → Ordered s
  Reach-Ordered _ begins = record {
    none_late = refl;
    holder = refl;
    attended = inl (ap (λ ops. length ops) queue.items-fresh);
  }
  Reach-Ordered _ (later {s} r (calls op)) =
      let h = Reach-Ordered s r in
      record {
        none_late = omega (arith, h.none_late);
        holder = omega (arith, h.holder);
        attended = inr (omega arith);
      }
  Reach-Ordered _ (later {s} r (acts i p at)) = acts-Ordered s i p (Reach-Ordered s r) at
  Reach-Ordered _ (later {s} r (delays i can at)) = absurd (cc can)
