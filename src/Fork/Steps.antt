-- ===== src/Fork/Steps.antt =====
-- What the actions of source/sio/sequence/fork.hpp on ref_counter_ and on the receiver keep.
use senders_io.Prelude.{
  sum, sum-set, sum-part, ℕ, ◌+◌, ◌-◌, ◌≤◌, ◌≡◌, refl, ap, inl, inr, true, Option, none, some, List,
  arith, leb, ◌==◌, Bool-cases, length, get_elem?, set, add64, sub64, add64_exact, sub64_exact,
  length-set,
}
use senders_io.Fork.{
  End, Allocation, value_unless_stopped, set_stopped, set_error, Pc, opening, sequence, waiting,
  claim, allocate, leave, deliver, done, Operation, tell, visit, complete, opened, asking,
}
use senders_io.Fork.Counter.{
  holds, before, delivers, written, callbacks, bit, filled, Holds, moves, same_sequence, same_error,
  bounded, owned,
}

module _ (o : Operation) (runs : List Pc) (h : Holds o runs) (i : ℕ) where
  pub opens :
      (e : End)
      → get_elem? runs i ≡ some (opening e)
      → Holds (record o { ref_counter = 1 }) (set runs i (sequence e))
  opens e at = record {
    counted = omega (arith, h.counted, unowned, sum-set holds runs i (opening e) (sequence e) at);
    in_sequence = λ le. omega (
      arith,
      sum-part asking runs i (opening e) at,
      sum-set opened runs i (opening e) (sequence e) at,
    );
    sole = omega (
      arith,
      h.sole,
      sum-set opened runs i (opening e) (sequence e) at,
      sum-set before runs i (opening e) (sequence e) at,
    );
    once = omega (
      arith,
      h.once,
      ap (λ n. bit (leb 1 n)) unowned,
      sum-set before runs i (opening e) (sequence e) at,
      sum-set delivers runs i (opening e) (sequence e) at,
    );
    stored = same_error o runs h i (opening e) (sequence e) at (omega arith);
    unasked = omega (arith, h.unasked, sum-set callbacks runs i (opening e) (sequence e) at);
    few = omega (arith, h.few, length-set runs i (sequence e));
  }
    where
      unowned : o.ref_counter ≡ 0
      unowned = ground (arith, h.once, sum-part before runs i (opening e) at)

  pub claims :
      (x : ℕ) (a : Allocation)
      → get_elem? runs i ≡ some (claim x a)
      → o.ref_counter ≡ x
      → Holds (record o { ref_counter = add64 x 1 }) (set runs i (allocate a))
  claims x a at e = rw more (record {
    counted = omega (arith, h.counted, sum-set holds runs i (claim x a) (allocate a) at);
    in_sequence = same_sequence o runs h i (claim x a) (allocate a) at (omega arith) refl;
    sole = omega (
      arith,
      h.sole,
      sum-set opened runs i (claim x a) (allocate a) at,
      sum-set before runs i (claim x a) (allocate a) at,
    );
    once = ground (
      arith,
      h.once,
      owned o runs h i (claim x a) at (omega arith),
      sum-set before runs i (claim x a) (allocate a) at,
      sum-set delivers runs i (claim x a) (allocate a) at,
    );
    stored = same_error o runs h i (claim x a) (allocate a) at (omega arith);
    unasked = omega (arith, h.unasked, sum-set callbacks runs i (claim x a) (allocate a) at);
    few = omega (arith, h.few, length-set runs i (allocate a));
  })
    where
      more : add64 x 1 ≡ o.ref_counter + 1
      more = omega (arith, add64_exact x 1 (omega (arith, bounded o runs h i, h.few)))

  pub leaves :
      (q : Pc)
      → get_elem? runs i ≡ some leave
      → holds q ≡ 0
      → opened q ≡ 0
      → before q ≡ 0
      → callbacks q ≡ 0
      → asking q ≡ 0
      → written q ≡ 0
      → delivers q ≡ bit (o.ref_counter == 1)
      → Holds (record o { ref_counter = sub64 o.ref_counter 1 }) (set runs i q)
  leaves q at hold open_ wait call ask writes del = rw less (record {
    counted = omega (arith, h.counted, sum-set holds runs i leave q at);
    in_sequence = same_sequence o runs h i leave q at (omega arith) open_;
    sole =
        omega (arith, h.sole, sum-set opened runs i leave q at, sum-set before runs i leave q at);
    once = ground (
      arith,
      h.once,
      del,
      owns,
      sum-set before runs i leave q at,
      sum-set delivers runs i leave q at,
    );
    stored = same_error o runs h i leave q at (omega arith);
    unasked = omega (arith, h.unasked, sum-set callbacks runs i leave q at);
    few = omega (arith, h.few, length-set runs i q);
  })
    where
      owns : 1 ≤ o.ref_counter
      owns = omega (arith, h.counted, sum-part holds runs i leave at)

      less : sub64 o.ref_counter 1 ≡ o.ref_counter - 1
      less = sub64_exact o.ref_counter 1 owns (omega (arith, bounded o runs h i, h.few))

  pub tells :
      (p : Pc) (o' : Operation)
      → get_elem? runs i ≡ some p
      → o'.ref_counter ≡ o.ref_counter
      → o'.completion_type ≡ o.completion_type
      → o'.errors ≡ o.errors
      → length o'.completions ≡ length o.completions + 1
      → holds p ≡ 0
      → opened p ≡ 0
      → asking p ≡ 0
      → before p + delivers p ≡ 1
      → Holds o' (set runs i done)
  tells p o' at r t e c hold open_ ask one = record {
    counted = omega (arith, h.counted, sum-set holds runs i p done at);
    in_sequence = same_sequence o runs h i p done at (omega arith) (omega arith);
    sole = omega (arith, h.sole, sum-set opened runs i p done at, sum-set before runs i p done at);
    once = omega (
      arith,
      h.once,
      ap (λ n. bit (leb 1 n)) r,
      sum-set before runs i p done at,
      sum-set delivers runs i p done at,
    );
    stored = λ le. omega (
      arith,
      ap filled e,
      h.stored (omega (arith, le, ap (λ n. bit (n == 2)) t, sum-set written runs i p done at)),
    );
    unasked = omega (arith, h.unasked, sum-set callbacks runs i p done at);
    few = omega (arith, h.few, length-set runs i done);
  }

  pub asks :
      (a : Allocation)
      → get_elem? runs i ≡ some (waiting a)
      → 1 ≤ sum opened runs
      → Holds o (set runs i (claim 1 a))
  asks a at open_ =
      moves o runs h i (waiting a) (claim 1 a) o at refl refl refl (omega arith) refl refl refl
        (λ le. omega (arith, open_, sum-set opened runs i (waiting a) (claim 1 a) at))
        (same_error o runs h i (waiting a) (claim 1 a) at (omega arith))

  pub completes :
      (e : End) (q : Pc) (o' : Operation)
      → get_elem? runs i ≡ some (sequence e)
      → sum asking runs ≡ 0
      → o'.ref_counter ≡ o.ref_counter
      → o'.completions ≡ o.completions
      → holds q ≡ 1
      → opened q ≡ 0
      → before q ≡ 0
      → delivers q ≡ 0
      → callbacks q ≡ 0
      → asking q ≡ 0
      → written q ≡ 0
      → (1 ≤ sum written runs + bit (o'.completion_type == 2) → 1 ≤ filled o'.errors)
      → Holds o' (set runs i q)
  completes e q o' at quiet r c hold opens_ wait del call ask writes store =
      moves o runs h i (sequence e) q o' at r c hold (omega arith) wait del call
        (λ le. absurd (omega (arith, sum-set asking runs i (sequence e) q at)))
        (λ le. store (omega (arith, sum-set written runs i (sequence e) q at)))

  pub delivers_to : get_elem? runs i ≡ some deliver → Holds (complete o) (set runs i done)
  unfolding complete
  delivers_to at = elim (Bool-cases (o.completion_type == 3)) [
    | inl e ↦
        rw e
          (tells deliver (tell o set_stopped) at refl refl refl (omega arith) refl refl refl refl)
    | inr ne ↦ rw ne (elim (Bool-cases (o.completion_type == 2)) [
      | inl two ↦ rw two (visits two o.errors refl)
      | inr ntwo ↦ rw ntwo (
          tells deliver (tell o value_unless_stopped) at refl refl refl (omega arith) refl refl refl
            refl)
    ])
  ]
    where
      visits :
          (o.completion_type == 2) ≡ true
          → (r : Option ℕ) → o.errors ≡ r
          → Holds (visit r o) (set runs i done)
      visits two none e = absurd (omega (arith, h.stored (omega (arith, ap bit two)), ap filled e))
      visits two (some k) e =
          tells deliver (tell o (set_error k)) at refl refl refl (omega arith) refl refl refl refl
