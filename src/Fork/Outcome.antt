-- ===== src/Fork/Outcome.antt =====
-- What the receiver of source/sio/sequence/fork.hpp is told, if nobody asks it to stop and the
-- sequence does not end by set_stopped.
use senders_io.Prelude.{
  sum, sum-set, sum-part, sum_mono, ℕ, ◌+◌, ◌≤◌, ◌≡◌, refl, ap, ◌∙◌, ◌⊎◌, inl, inr, false, some,
  List, [], ◌∷◌, arith, ◌==◌, length, get_elem?, set,
}
use senders_io.Fork.{
  End, stopped, error, Allocation, refused, Completion, value_unless_stopped, set_error, Pc,
  starting, opening, sequence, waiting, claim, allocate, fail, emplace, publish, done, Operation,
  opened, Ready,
}
use senders_io.Fork.Counter.{holds, before, bit, Holds, opened-le}
use senders_io.Fork.Once.{active, told_at_rest, holds-le-active}

-- whether a run will meet a failure
abbrev pub ends_in_error : End → ℕ
ends_in_error (error e) = 1
ends_in_error e = 0

abbrev pub is_refused : Allocation → ℕ
is_refused (refused e) = 1
is_refused a = 0

abbrev pub fails : Pc → ℕ
fails (starting e) = ends_in_error e
fails (opening e) = ends_in_error e
fails (sequence e) = ends_in_error e
fails (waiting a) = is_refused a
fails (claim x a) = is_refused a
fails (allocate a) = is_refused a
fails (fail e) = 1
fails p = 0

abbrev pub writes : Pc → ℕ
writes (emplace e) = 1
writes publish = 1
writes p = 0

pub writes-le : (p : Pc) → writes p ≤ holds p
writes-le p = ground (arith, p)

-- whether the sequence will end by set_stopped
abbrev pub ends_by_stop : End → ℕ
ends_by_stop stopped = 1
ends_by_stop e = 0

abbrev pub by_stop : Pc → ℕ
by_stop (starting e) = ends_by_stop e
by_stop (opening e) = ends_by_stop e
by_stop (sequence e) = ends_by_stop e
by_stop p = 0

-- what the receiver was told, with the completion type at that time
pub data Told (o : Operation) : Type 0 where
  nothing : o.completions ≡ [] → Told o
  of_value : o.completion_type ≡ 0 → o.completions ≡ value_unless_stopped ∷ [] → Told o
  of_error : (e : ℕ) → o.completion_type ≡ 2 → o.completions ≡ set_error e ∷ [] → Told o

pub record Outcome (failures : ℕ) (o : Operation) (runs : List Pc) : Type 0 where
  pub one_writer : sum writes runs ≡ bit (o.completion_type == 1)
  pub in_range : o.completion_type ≤ 2
  pub not_failed : o.completion_type ≡ 0 → sum fails runs ≡ failures
  pub has_failed : 1 ≤ o.completion_type → sum fails runs + 1 ≤ failures
  pub no_stop : sum by_stop runs ≡ 0
  pub unasked : 1 ≤ sum before runs → o.stop_requested ≡ false
  pub told : Told o

module _ (failures : ℕ) (o : Operation) (runs : List Pc) (h : Holds o runs)
    (r : Outcome failures o runs) (i : ℕ) where
  pub untold : (p : Pc) → get_elem? runs i ≡ some p → Ready p runs → o.completions ≡ []
  untold p at ready = nil o.completions refl
    where
      rest : 1 ≤ length o.completions → sum active runs ≡ 0
      rest = told_at_rest o runs h

      idle : (q : Pc) → get_elem? runs i ≡ some q → Ready q runs → sum active runs ≡ 0 → ⊥
      idle (waiting a) at ready z = omega (
        arith,
        ready,
        sum_mono opened holds runs opened-le,
        sum_mono holds active runs holds-le-active,
      )
      idle done at ready z = absurd ready
      idle q at ready z = omega (arith, sum-part active runs i q at)

      nil : (l : List Completion) → o.completions ≡ l → l ≡ []
      nil [] e = refl
      nil (c ∷ l) e = absurd (idle p at ready (rest (omega (arith, ap (λ k. length k) e))))

  -- an action that tells nothing
  pub goes_on :
      (p q : Pc) (o' : Operation)
      → get_elem? runs i ≡ some p
      → Ready p runs
      → o'.completions ≡ o.completions
      → o'.stop_requested ≡ o.stop_requested
      → writes q + bit (o.completion_type == 1) ≡ writes p + bit (o'.completion_type == 1)
      → o'.completion_type ≤ 2
      → (o'.completion_type ≡ 0 → (o.completion_type ≡ 0) × (fails q ≡ fails p))
      → (1 ≤ o'.completion_type
          → ((1 ≤ o.completion_type) × (fails q ≤ fails p))
            ⊎ ((o.completion_type ≡ 0) × (fails q + 1 ≤ fails p)))
      → by_stop q ≡ by_stop p
      → before q ≤ before p
      → Outcome failures o' (set runs i q)
  goes_on p q o' at ready c s w two zero_ more stop wait = record {
    one_writer = omega (arith, r.one_writer, sum-set writes runs i p q at);
    in_range = two;
    not_failed =
        λ z. omega (arith, r.not_failed (zero_ z).0, (zero_ z).1, sum-set fails runs i p q at);
    has_failed = λ le. elim (more le) [
      | inl (one, f) ↦ omega (arith, r.has_failed one, f, sum-set fails runs i p q at)
      | inr (z, f) ↦ omega (arith, r.not_failed z, f, sum-set fails runs i p q at)
    ];
    no_stop = omega (arith, r.no_stop, sum-set by_stop runs i p q at);
    unasked = λ le. s ∙ r.unasked (omega (arith, sum-set before runs i p q at));
    told = nothing (c ∙ untold p at ready);
  }

  pub plain :
      (p q : Pc)
      → get_elem? runs i ≡ some p
      → Ready p runs
      → writes q ≡ writes p
      → fails q ≡ fails p
      → by_stop q ≡ by_stop p
      → before q ≤ before p
      → Outcome failures o (set runs i q)
  plain p q at ready w f stop wait =
      goes_on p q o at ready refl refl (omega arith) r.in_range (λ z. (z, f))
        (λ le. inl (le, omega arith)) stop wait
