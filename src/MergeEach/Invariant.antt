-- ===== src/MergeEach/Invariant.antt =====
-- What holds of the counters of merge_each in every state that can be reached.
use senders_io.Prelude.{
  sum, sum-set, sum-part, sum_mono, ℕ, ◌-◌, ◌≡◌, refl, ap, inl, inr, true, some, List, [], ◌∷◌, map,
  arith, ◌==◌, ==_iff, Bool-cases, length, get_elem?, set,
}
use senders_io.MergeEach.{
  Outcome, set_value, set_stopped, set_error, Pc, running, emplace, publish, request_stop, leave,
  deliver, finished, Operation, answer, advance, System, init, acts, Reach, begins, later,
}
use senders_io.MergeEach.Holds.{
  plain, pending, writes, written, fails, bit, one?, two?, Holds, written≤writes, filled_le, forget,
}

-- whether a run has yet to count down

module _ (failures : ℕ) (o : Operation) (runs : List Pc) (h : Holds failures o runs) (i : ℕ) where
  first_error :
      (e : ℕ)
      → get_elem? runs i ≡ some (running (set_error e))
      → o.error_emplaced ≡ 0
      → Holds failures (record o { error_emplaced = 1 }) (set runs i (emplace e))
  first_error e at z = record {
    counted =
        omega (arith, h.counted, sum-set pending runs i (running (set_error e)) (emplace e) at);
    one_writer = omega (
      arith,
      h.one_writer,
      ap one? z,
      sum-set writes runs i (running (set_error e)) (emplace e) at,
    );
    in_range = omega arith;
    stored = omega (arith, h.stored, sum-set written runs i (running (set_error e)) (emplace e) at);
    not_failed = λ f. absurd (omega arith);
    has_failed =
        λ f. omega (arith, h.not_failed z, sum-part fails runs i (running (set_error e)) at);
  }

  -- a run that writes the error is alone in it
  writing : (p : Pc) → get_elem? runs i ≡ some p → writes p ≡ 1 → o.error_emplaced ≡ 1
  writing p at w = elim (Bool-cases (o.error_emplaced == 1)) [
    | inl e ↦ (==_iff o.error_emplaced 1).0 e
    | inr ne ↦ absurd (omega (arith, h.one_writer, sum-part writes runs i p at, ap bit ne))
  ]

  store_error :
      (e : ℕ)
      → get_elem? runs i ≡ some (emplace e)
      → Holds failures (record o { errors = some e }) (set runs i publish)
  store_error e at = record {
    counted = omega (arith, h.counted, sum-set pending runs i (emplace e) publish at);
    one_writer = omega (arith, h.one_writer, sum-set writes runs i (emplace e) publish at);
    in_range = h.in_range;
    stored = omega (
      arith,
      sum-set written runs i (emplace e) publish at,
      sum-set written runs i (emplace e) finished at,
      sum-set writes runs i (emplace e) finished at,
      h.one_writer,
      ap one? one,
      ap two? one,
      sum_mono written writes (set runs i finished) written≤writes,
    );
    not_failed = λ f. omega (arith, h.not_failed f, sum-set fails runs i (emplace e) publish at);
    has_failed = h.has_failed;
  }
    where
      one : o.error_emplaced ≡ 1
      one = writing (emplace e) at refl

  publish_error :
      get_elem? runs i ≡ some publish
      → Holds failures (record o { error_emplaced = 2 }) (set runs i request_stop)
  publish_error at = record {
    counted = omega (arith, h.counted, sum-set pending runs i publish request_stop at);
    one_writer =
        omega (arith, h.one_writer, ap one? one, sum-set writes runs i publish request_stop at);
    in_range = omega arith;
    stored = omega (
      arith,
      h.stored,
      filled_le o.errors,
      sum-set written runs i publish request_stop at,
      sum-part written runs i publish at,
    );
    not_failed = λ f. absurd (omega arith);
    has_failed = λ f. h.has_failed (omega (arith, one));
  }
    where
      one : o.error_emplaced ≡ 1
      one = writing publish at refl

  counts_down :
      (q : Pc)
      → get_elem? runs i ≡ some leave
      → pending q ≡ 0
      → writes q ≡ 0
      → written q ≡ 0
      → fails q ≡ 0
      → Holds failures (record o { n_pending_ops = o.n_pending_ops - 1 }) (set runs i q)
  counts_down q at a b c d = record {
    counted = omega (arith, h.counted, sum-set pending runs i leave q at);
    one_writer = omega (arith, h.one_writer, sum-set writes runs i leave q at);
    in_range = h.in_range;
    stored = omega (arith, h.stored, sum-set written runs i leave q at);
    not_failed = λ f. omega (arith, h.not_failed f, sum-set fails runs i leave q at);
    has_failed = h.has_failed;
  }

  act :
      (p : Pc)
      → get_elem? runs i ≡ some p
      → Holds failures (advance p o).1 (set runs i (advance p o).0)
  unfolding advance
  act (running set_value) at =
      plain failures o runs h i (running set_value) leave at refl refl refl (λ _. refl)
  act (running set_stopped) at =
      plain failures o runs h i (running set_stopped) request_stop at refl refl refl (λ _. refl)
  act (running (set_error e)) at = elim (Bool-cases (o.error_emplaced == 0)) [
    | inl z ↦ rw z (first_error e at ((==_iff o.error_emplaced 0).0 z))
    | inr ne ↦ rw ne (
        plain failures o runs h i (running (set_error e)) request_stop at refl refl refl
          (λ z. absurd (ground (arith, z, ne))))
  ]
  act (emplace e) at = store_error e at
  act publish at = publish_error at
  act request_stop at =
      forget failures o (set runs i leave) true o.results
        (plain failures o runs h i request_stop leave at refl refl refl (λ _. refl))
  act leave at = elim (Bool-cases (o.n_pending_ops == 1)) [
    | inl e ↦ rw e (counts_down deliver at refl refl refl refl)
    | inr ne ↦ rw ne (counts_down finished at refl refl refl refl)
  ]
  act deliver at =
      forget failures o (set runs i finished) o.stop_requested (answer o)
        (plain failures o runs h i deliver finished at refl refl refl (λ _. refl))
  act finished at = plain failures o runs h i finished finished at refl refl refl (λ _. refl)

-- how many of the sequences will fail
abbrev pub failures_of : List Outcome → ℕ
failures_of outcomes = sum fails (map running outcomes)

started :
    (outcomes : List Outcome) → Holds (failures_of outcomes) (init outcomes).op (init outcomes).runs
started outcomes = record {
  counted = all_pending outcomes;
  one_writer = none_of writes outcomes (λ x. refl);
  in_range = omega arith;
  stored = omega (arith, none_of written outcomes (λ x. refl));
  not_failed = λ _. refl;
  has_failed = λ f. absurd (omega arith);
}
  where
    all_pending : (xs : List Outcome) → length xs ≡ sum pending (map running xs)
    all_pending [] = refl
    all_pending (x ∷ xs) = omega (arith, all_pending xs)

    none_of :
        (w : Pc → ℕ) (xs : List Outcome)
        → ((x : Outcome) → w (running x) ≡ 0)
        → sum w (map running xs) ≡ 0
    none_of w [] z = refl
    none_of w (x ∷ xs) z = omega (arith, none_of w xs z, z x)

-- The invariant holds in every state that can be reached.
pub reached-Holds :
    (outcomes : List Outcome) (s : System)
    → Reach outcomes s
    → Holds (failures_of outcomes) s.op s.runs
reached-Holds outcomes _ begins = started outcomes
reached-Holds outcomes _ (later {s} r (acts i p at)) =
    act (failures_of outcomes) s.op s.runs (reached-Holds outcomes s r) i p at
