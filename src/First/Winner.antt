-- ===== src/First/Winner.antt =====
-- Which item gives the result of source/sio/sequence/first.hpp.
use senders_io.Prelude.{
  sum-zero, All, All-set, All-get, sum, sum-part, sum_mono, some-injective, ℕ, zero, suc, ◌≤◌, ◌≡◌,
  refl, sym, ap, subst, ◌∙◌, ◌⊎◌, inl, inr, true, false, Option, none, some, List, [], ◌∷◌, map,
  arith, ◌==◌, ==_iff, Bool-cases, length, get_elem?, set,
}
use senders_io.Interleaving.{System, Trace, Trace-keeps, move}
use senders_io.First.{
  Completion, set_stopped, Pc, running, construct, publish, stop_item, done, sequence, value,
  stopped, error, finished, Operation, visit, visit_result, advance, busy, Ready, init,
}
use senders_io.First.Holds.{
  building, publishing, publishing-le-building, filled, bit, waiting, Holds,
}
use senders_io.First.Invariant.{Trace-Holds, act, result_there}
use senders_io.First.Once.{unfinished, unfinished-zero}

-- a run of a sequence that will end by set_value, where c is the result
abbrev Fits : Completion → Pc → Type 0
Fits c (construct d) = d ≡ c
Fits c (sequence e) = e ≡ value
Fits c p = Unit {0}

record Follows (c : Completion) (o : Operation) (runs : List Pc) : Type 0 where
  claimed : 1 ≤ o.emplaced
  fits : All (Fits c) runs
  right : (d : Completion) → o.result ≡ some d → d ≡ c
  told : 1 ≤ length o.completions → o.completions ≡ c ∷ []

module _ (c : Completion) (total : ℕ) (o : Operation) (runs : List Pc) (h : Holds total o runs)
    (f : Follows c o runs) (i : ℕ) where
  no_completion :
      (p : Pc)
      → get_elem? runs i ≡ some p
      → waiting p ≡ 1
      → (l : List Completion) → o.completions ≡ l
      → l ≡ []
  no_completion p at w [] e = refl
  no_completion p at w (d ∷ ds) e =
      absurd (omega (arith, h.told, ap (λ l. length l) e, sum-part waiting runs i p at))

  moves_on : (q : Pc) → Fits c q → Follows c o (set runs i q)
  moves_on q fit = record {
    claimed = f.claimed;
    fits = All-set (Fits c) runs i q f.fits fit;
    right = f.right;
    told = f.told;
  }

  visits_winner :
      get_elem? runs i ≡ some (sequence value)
      → sum busy runs ≡ 0
      → Follows c (visit_result o) (set runs i finished)
  unfolding visit_result
  visits_winner at quiet = rw unclaimed (tells o.result refl)
    where
      unclaimed : (o.emplaced == 0) ≡ false
      unclaimed = ground (arith, f.claimed)

      tells : (r : Option Completion) → o.result ≡ r → Follows c (visit r o) (set runs i finished)
      tells none e = absurd (result_there total o runs h i quiet f.claimed e)
      tells (some d) e = record {
        claimed = f.claimed;
        fits = All-set (Fits c) runs i finished f.fits tt;
        right = f.right;
        told = λ le. cc (f.right d e, no_completion (sequence value) at refl o.completions refl);
      }

  follows :
      (p : Pc)
      → get_elem? runs i ≡ some p
      → Ready p runs
      → Follows c (advance p o).1 (set runs i (advance p o).0)
  unfolding advance
  follows (running d) at ready =
      let late : (o.emplaced == 0) ≡ false = ground (arith, f.claimed) in
      rw late (moves_on stop_item tt)
  follows (construct d) at ready = record {
    claimed = f.claimed;
    fits = All-set (Fits c) runs i publish f.fits tt;
    right =
        λ e same. sym (some-injective d e same) ∙ All-get (Fits c) runs i (construct d) f.fits at;
    told = f.told;
  }
  follows publish at ready = record {
    claimed = omega arith;
    fits = All-set (Fits c) runs i stop_item f.fits tt;
    right = f.right;
    told = f.told;
  }
  follows stop_item at ready = record {
    claimed = f.claimed;
    fits = All-set (Fits c) runs i done f.fits tt;
    right = f.right;
    told = f.told;
  }
  follows done at ready = absurd ready
  follows (sequence value) at ready = visits_winner at ready
  follows (sequence stopped) at ready =
      absurd (cc (All-get (Fits c) runs i (sequence stopped) f.fits at))
  follows (sequence (error e)) at ready =
      absurd (cc (All-get (Fits c) runs i (sequence (error e)) f.fits at))
  follows finished at ready = absurd ready

-- a run of a sequence that will end by set_value
abbrev ByValue : Pc → Type 0
ByValue (sequence e) = e ≡ value
ByValue p = Unit {0}

advance-ByValue : (p : Pc) (o : Operation) → ByValue (advance p o).0
unfolding advance
advance-ByValue (running c) o = elim (Bool-cases (o.emplaced == 0)) [
  | inl e ↦ rw e tt
  | inr e ↦ rw e tt
]
advance-ByValue (construct c) o = tt
advance-ByValue publish o = tt
advance-ByValue stop_item o = tt
advance-ByValue done o = tt
advance-ByValue (sequence value) o = tt
advance-ByValue (sequence stopped) o = tt
advance-ByValue (sequence (error e)) o = tt
advance-ByValue finished o = tt

Trace-ByValue :
    (items : List Completion) {n : ℕ} {s : System Operation Pc}
    → Trace advance Ready (init value items) n s
    → All ByValue s.runs
Trace-ByValue items =
    Trace-keeps advance Ready (λ s. All ByValue s.runs)
      (λ t i pc h at ready. All-set ByValue t.runs i _ h (advance-ByValue pc t.op))
      (refl, items_fit items)
  where
    items_fit : (l : List Completion) → All ByValue (map running l)
    items_fit [] = tt
    items_fit (x ∷ xs) = (tt, items_fit xs)

All-Fits :
    (c : Completion) (runs : List Pc) → All ByValue runs → sum building runs ≡ 0 → All (Fits c) runs
All-Fits c [] v e = tt
All-Fits c (construct d ∷ ps) v e = absurd (omega arith)
All-Fits c (publish ∷ ps) v e = absurd (omega arith)
All-Fits c (running d ∷ ps) v e = (tt, All-Fits c ps v.1 (omega arith))
All-Fits c (stop_item ∷ ps) v e = (tt, All-Fits c ps v.1 (omega arith))
All-Fits c (done ∷ ps) v e = (tt, All-Fits c ps v.1 (omega arith))
All-Fits c (sequence k ∷ ps) v e = (v.0, All-Fits c ps v.1 (omega arith))
All-Fits c (finished ∷ ps) v e = (tt, All-Fits c ps v.1 (omega arith))

module _ (c : Completion) (items : List Completion) (n : ℕ) (s : System Operation Pc) (i : ℕ)
    (path : Trace advance Ready (init value items) n s) (unclaimed : s.op.emplaced ≡ 0)
    (at : get_elem? s.runs i ≡ some (running c)) where
  -- the state after the claim
  claims_winner :
      Follows c (move advance Ready s i (running c)).op (move advance Ready s i (running c)).runs
  unfolding advance
  claims_winner = rw ((==_iff s.op.emplaced 0).1 unclaimed) (record {
    claimed = omega arith;
    fits =
        All-set (Fits c) s.runs i (construct c)
          (All-Fits c s.runs (Trace-ByValue items path)
            (omega (arith, h.claimed, ap (λ k. bit (k == 1)) unclaimed)))
          refl;
    right = λ d e. absurd (
        omega (
          arith,
          h.stored,
          ap filled e,
          ap (λ k. bit (k == 2)) unclaimed,
          h.claimed,
          ap (λ k. bit (k == 1)) unclaimed,
          sum_mono publishing building s.runs publishing-le-building,
        ));
    told = λ le. absurd (omega (arith, h.told, h.early (sum-part busy s.runs i (running c) at)));
  })
    where
      h : Holds (length items) s.op s.runs
      h = Trace-Holds value items path

  -- Of a sequence that ends by set_value, the item that completes first, with the completion c, gives
  -- the result: whatever the others do, the receiver of the whole is told c and nothing else.
  pub first_item_wins :
      (m : ℕ) (u : System Operation Pc)
      → Trace advance Ready (move advance Ready s i (running c)) m u
      → sum unfinished u.runs ≡ 0
      → u.op.completions ≡ c ∷ []
  first_item_wins m u later quiet =
      (kept later).1.told (omega (arith, (kept later).0.told, none_waits))
    where
      none_waits : sum waiting u.runs ≡ 0
      none_waits =
          sum-zero unfinished waiting u.runs (λ p e. omega (arith, unfinished-zero p e)) quiet

      kept :
          Trace advance Ready (move advance Ready s i (running c)) m u
          → Holds (length items) u.op u.runs × Follows c u.op u.runs
      kept =
          Trace-keeps advance Ready (λ t. Holds (length items) t.op t.runs × Follows c t.op t.runs)
            (λ t j p k a r. (
              act (length items) t.op t.runs k.0 j p a r,
              follows c (length items) t.op t.runs k.0 k.1 j p a r,
            ))
            (
              act (length items) s.op s.runs (Trace-Holds value items path) i (running c) at tt,
              claims_winner,
            )

-- the states of a sequence of no items
abbrev Alone : Operation → List Pc → Type 0
Alone o runs =
    ((o ≡ (init value []).op) × (runs ≡ sequence value ∷ []))
    ⊎ ((o ≡ visit_result (init value []).op) × (runs ≡ finished ∷ []))

Alone-step :
    (o : Operation) (runs : List Pc) (i : ℕ) (p : Pc)
    → Alone o runs
    → get_elem? runs i ≡ some p
    → Ready p runs
    → Alone (advance p o).1 (set runs i (advance p o).0)
unfolding advance
Alone-step o runs i p (inl (e, f)) at ready = first_run i (subst (λ r. get_elem? r i ≡ some p) f at)
  where
    first_run :
        (j : ℕ)
        → get_elem? (sequence value ∷ []) j ≡ some p
        → Alone (advance p o).1 (set runs j (advance p o).0)
    first_run zero same = rw (← some-injective (sequence value) p same) (inr (rw e refl, rw f refl))
    first_run (suc j) same = absurd (cc same)
Alone-step o runs i p (inr (e, f)) at ready =
    absurd (last_run i (subst (λ r. get_elem? r i ≡ some p) f at))
  where
    last_run : (j : ℕ) → get_elem? (finished ∷ []) j ≡ some p → ⊥
    last_run zero same = subst (λ q. Ready q runs) (sym (some-injective finished p same)) ready
    last_run (suc j) same = absurd (cc same)

-- A sequence of no items that ends by set_value: whenever its receiver has come to its end, the whole
-- was told set_stopped, and then the result was read that no item has constructed.
pub empty_sequence_faults :
    (n : ℕ) (s : System Operation Pc)
    → Trace advance Ready (init value []) n s
    → sum unfinished s.runs ≡ 0
    → (s.op.completions ≡ set_stopped ∷ []) × (s.op.read_uninitialised ≡ true)
unfolding visit_result
empty_sequence_faults n s path quiet = elim (states path) [
  | inl (e, f) ↦ absurd (omega (arith, quiet, ap (sum unfinished) f))
  | inr (e, f) ↦
      (ap (λ (o : Operation). o.completions) e, ap (λ (o : Operation). o.read_uninitialised) e)
]
  where
    states : Trace advance Ready (init value []) n s → Alone s.op s.runs
    states =
        Trace-keeps advance Ready (λ t. Alone t.op t.runs)
          (λ t i p a at ready. Alone-step t.op t.runs i p a at ready) (inl (refl, refl))
