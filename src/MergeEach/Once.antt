-- ===== src/MergeEach/Once.antt =====
-- The receiver of the whole is completed once, with an error if and only if a sequence has failed.
use senders_io.Prelude.{
  sum, sum-set, sum-part, ℕ, ◌+◌, ◌-◌, ◌≤◌, ◌≡◌, refl, sym, ap, ◌∙◌, ◌⊎◌, inl, inr, true, false,
  Option, none, some, List, [], ◌∷◌, map, arith, ◌==◌, ==_iff, Bool-cases, length, get_elem?, set,
}
use senders_io.MergeEach.{
  Outcome, set_value, set_stopped, set_error, Pc, running, emplace, publish, request_stop, leave,
  deliver, finished, Operation, Result, error, value_unless_stopped, visit, answer, advance, System,
  init, acts, Reach, begins, later,
}
use senders_io.MergeEach.Holds.{bit, pending, delivers, writes, fails, zero?, two?, filled, Holds}
use senders_io.MergeEach.Invariant.{failures_of, reached-Holds}

-- what is delivered when nothing was before
abbrev pub final : Operation → List Result
final o = answer (record o { results = [] })

pub record Answers (o : Operation) (runs : List Pc) : Type 0 where
  pub once : sum delivers runs + length o.results ≡ zero? o.n_pending_ops
  pub right : (o.results ≡ []) ⊎ ((o.n_pending_ops ≡ 0) × (o.results ≡ final o))

length-visit : (e : Option ℕ) → 1 ≤ filled e → length (visit e []) ≡ 1
length-visit none h = absurd (omega arith)
length-visit (some e) h = refl

module _ (failures : ℕ) (o : Operation) (runs : List Pc) (h : Holds failures o runs)
    (a : Answers o runs) (i : ℕ) where
  length-final : length (final o) ≡ 1
  length-final = elim (Bool-cases (o.error_emplaced == 2)) [
    | inl e ↦
        rw e (
          length-visit o.errors
            (omega (arith, h.stored, ap two? ((==_iff o.error_emplaced 2).0 e))))
    | inr ne ↦ rw ne refl
  ]

  no_results : 1 ≤ o.n_pending_ops → o.results ≡ []
  no_results le = elim a.right [ inl e ↦ e | inr (z, _) ↦ absurd (omega arith) ]

  -- while a run has yet to count down, nothing was delivered, and the action of that run delivers
  -- nothing
  goes_on :
      (p q : Pc) (o' : Operation)
      → get_elem? runs i ≡ some p
      → pending p ≡ 1
      → o'.results ≡ o.results
      → delivers p ≡ 0
      → delivers q + zero? o.n_pending_ops ≡ zero? o'.n_pending_ops
      → Answers o' (set runs i q)
  goes_on p q o' at pend same d e = record {
    once = omega (arith, a.once, sum-set delivers runs i p q at, ap (λ l. length l) same, d, e);
    right = inl (same ∙ no_results (omega (arith, h.counted, sum-part pending runs i p at, pend)));
  }

  counts_down :
      get_elem? runs i ≡ some leave → Answers (advance leave o).1 (set runs i (advance leave o).0)
  unfolding advance
  counts_down at = elim (Bool-cases (o.n_pending_ops == 1)) [
    | inl e ↦ rw e (
        goes_on leave deliver (record o { n_pending_ops = o.n_pending_ops - 1 }) at refl refl refl
          (ground (arith, e)))
    | inr ne ↦ rw ne (
        goes_on leave finished (record o { n_pending_ops = o.n_pending_ops - 1 }) at refl refl refl
          (ground (arith, ne, some_pending)))
  ]
    where
      some_pending : 1 ≤ sum pending runs
      some_pending = omega (arith, sum-part pending runs i leave at)

  delivers_last :
      get_elem? runs i ≡ some deliver
      → Answers (record o { results = answer o }) (set runs i finished)
  delivers_last at = record {
    once = omega (
      arith,
      a.once,
      sum-set delivers runs i deliver finished at,
      nothing_yet,
      ap (λ l. length l) told,
      length-final,
    );
    right = inr (all_left, told);
  }
    where
      here : 1 ≤ sum delivers runs
      here = sum-part delivers runs i deliver at

      all_left : o.n_pending_ops ≡ 0
      all_left = elim (Bool-cases (o.n_pending_ops == 0)) [
        | inl e ↦ (==_iff o.n_pending_ops 0).0 e
        | inr ne ↦ absurd (omega (arith, a.once, here, ap bit ne))
      ]

      nothing_yet : length o.results ≡ 0
      nothing_yet = omega (arith, a.once, here, ap zero? all_left)

      empty : (l : List Result) → length l ≡ 0 → l ≡ []
      empty [] e = refl
      empty (x ∷ xs) e = absurd (omega arith)

      told : answer o ≡ final o
      told = ap (λ l. answer (record o { results = l })) (empty o.results nothing_yet)

  stays : (p : Pc) → get_elem? runs i ≡ some p → delivers p ≡ 0 → Answers o (set runs i p)
  stays p at d = record {
    once = omega (arith, a.once, sum-set delivers runs i p p at, d);
    right = a.right;
  }

  act : (p : Pc) → get_elem? runs i ≡ some p → Answers (advance p o).1 (set runs i (advance p o).0)
  unfolding advance
  act (running set_value) at = goes_on (running set_value) leave o at refl refl refl (omega arith)
  act (running set_stopped) at =
      goes_on (running set_stopped) request_stop o at refl refl refl (omega arith)
  act (running (set_error e)) at = elim (Bool-cases (o.error_emplaced == 0)) [
    | inl z ↦ rw z (
        goes_on (running (set_error e)) (emplace e) (record o { error_emplaced = 1 }) at refl refl
          refl (omega arith))
    | inr ne ↦
        rw ne (goes_on (running (set_error e)) request_stop o at refl refl refl (omega arith))
  ]
  act (emplace e) at =
      goes_on (emplace e) publish (record o { errors = some e }) at refl refl refl (omega arith)
  act publish at =
      goes_on publish request_stop (record o { error_emplaced = 2 }) at refl refl refl (omega arith)
  act request_stop at =
      goes_on request_stop leave (record o { stop_requested = true }) at refl refl refl
        (omega arith)
  act leave at = counts_down at
  act deliver at = delivers_last at
  act finished at = stays finished at refl

started : (x : Outcome) (xs : List Outcome) → Answers (init (x ∷ xs)).op (init (x ∷ xs)).runs
started x xs = record { once = ground (arith, none_delivers xs); right = inl refl }
  where
    none_delivers : (ys : List Outcome) → sum delivers (map running ys) ≡ 0
    none_delivers [] = refl
    none_delivers (y ∷ ys) = omega (arith, none_delivers ys)

reached-Answers :
    (x : Outcome) (xs : List Outcome) (s : System) → Reach (x ∷ xs) s → Answers s.op s.runs
reached-Answers x xs _ begins = started x xs
reached-Answers x xs _ (later {s} r (acts i p at)) =
    act (failures_of (x ∷ xs)) s.op s.runs (reached-Holds (x ∷ xs) s r) (reached-Answers x xs s r) i
      p at

-- whether a run has anything left to do
abbrev pub unfinished : Pc → ℕ
unfinished finished = 0
unfinished p = 1

all_finished : (w : Pc → ℕ) (ps : List Pc) → w finished ≡ 0 → sum unfinished ps ≡ 0 → sum w ps ≡ 0
all_finished w [] e h = refl
all_finished w (finished ∷ ps) e h = omega (arith, all_finished w ps e (omega arith))
all_finished w (p ∷ ps) e h = absurd (omega arith)

-- The receiver of the whole is completed at most once in every state that can be reached.
pub at_most_once :
    (x : Outcome) (xs : List Outcome) (s : System) → Reach (x ∷ xs) s → length s.op.results ≤ 1
at_most_once x xs s r = elim (Bool-cases (s.op.n_pending_ops == 0)) [
  | inl e ↦ omega (arith, (reached-Answers x xs s r).once, ap bit e)
  | inr ne ↦ omega (arith, (reached-Answers x xs s r).once, ap bit ne)
]

-- When every one of the sequences has come to its end, and there was at least one, the receiver of
-- the whole has been completed just once: with set_value_unless_stopped when none of them failed, and
-- with an error when one of them did.
pub completes_once :
    (x : Outcome) (xs : List Outcome) (s : System)
    → Reach (x ∷ xs) s
    → sum unfinished s.runs ≡ 0
    → ((failures_of (x ∷ xs) ≡ 0) × (s.op.results ≡ value_unless_stopped ∷ []))
      ⊎ ((1 ≤ failures_of (x ∷ xs)) × ((e : ℕ) × (s.op.results ≡ error e ∷ [])))
completes_once x xs s r quiet = elim (reached-Answers x xs s r).right [
  | inl none_yet ↦ absurd (omega (arith, delivered, ap (λ l. length l) none_yet))
  | inr (_, told) ↦ elim (Bool-cases (s.op.error_emplaced == 2)) [
    | inl two ↦ inr (
      holds.has_failed (omega (arith, (==_iff s.op.error_emplaced 2).0 two)),
      with_error two told,
    )
    | inr ne ↦ inl (
      sym (holds.not_failed (untouched ne)) ∙ all_finished fails s.runs refl quiet,
      told ∙ rw ne refl,
    )
  ]
]
  where
    holds : Holds (failures_of (x ∷ xs)) s.op s.runs
    holds = reached-Holds (x ∷ xs) s r

    all_left : s.op.n_pending_ops ≡ 0
    all_left = holds.counted ∙ all_finished pending s.runs refl quiet

    delivered : length s.op.results ≡ 1
    delivered = omega (
      arith,
      (reached-Answers x xs s r).once,
      all_finished delivers s.runs refl quiet,
      ap zero? all_left,
    )

    untouched : (s.op.error_emplaced == 2) ≡ false → s.op.error_emplaced ≡ 0
    untouched ne =
        ground (arith, ne, holds.in_range, holds.one_writer, all_finished writes s.runs refl quiet)

    an_error : (e : Option ℕ) → 1 ≤ filled e → (k : ℕ) × (e ≡ some k)
    an_error none h = absurd (omega arith)
    an_error (some k) h = (k, refl)

    with_error :
        (s.op.error_emplaced == 2) ≡ true
        → s.op.results ≡ final s.op
        → (k : ℕ) × (s.op.results ≡ error k ∷ [])
    with_error two told =
        let (k, e) =
          an_error s.op.errors
            (omega (arith, holds.stored, ap two? ((==_iff s.op.error_emplaced 2).0 two))) in
        (k, told ∙ rw two (ap (λ m. visit m []) e))
