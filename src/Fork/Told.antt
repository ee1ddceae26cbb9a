-- ===== src/Fork/Told.antt =====
-- What each action of source/sio/sequence/fork.hpp makes of what the receiver is told.
use senders_io.Prelude.{
  sum-set, sum-part, sum_mono, ℕ, ◌≤◌, ◌≡◌, refl, ap, ◌∙◌, ◌≢◌, inl, inr, Bool, true, false, Option,
  none, some, List, [], ◌∷◌, arith, ◌==◌, if◌then◌else◌, ==_iff, Bool-cases, get_elem?, set, add64,
  sub64,
}
use senders_io.Fork.{
  End, value, stopped, error, succeeds, stops, allocated, refused, given_up, value_unless_stopped,
  set_stopped, set_error, Pc, starting, opening, sequence, waiting, claim, allocate, start_item,
  work, fail, emplace, publish, ask_stop, stop_source, leave, deliver, done, callback, Operation,
  tell, visit, complete, advance, Ready,
}
use senders_io.Fork.Counter.{holds, before, delivers, bit, filled, Holds, owned}
use senders_io.Fork.Outcome.{
  fails, writes, writes-le, ends_by_stop, by_stop, Told, nothing, of_value, of_error, Outcome,
  untold, goes_on, plain,
}

module _ (failures : ℕ) (o : Operation) (runs : List Pc) (h : Holds o runs)
    (r : Outcome failures o runs) (i : ℕ) where
  delivers_to : get_elem? runs i ≡ some deliver → Outcome failures (complete o) (set runs i done)
  unfolding complete
  delivers_to at = rw ntwo_three (elim (Bool-cases (o.completion_type == 2)) [
    | inl two ↦ rw two (visits two o.errors refl)
    | inr ntwo ↦ rw ntwo (
        tells (tell o value_unless_stopped) refl refl (
          of_value (ground (arith, ntwo, not_one, r.in_range))
            (ap (λ l. value_unless_stopped ∷ l) none_yet)))
  ])
    where
      ntwo_three : (o.completion_type == 3) ≡ false
      ntwo_three = ground (arith, r.in_range)

      none_yet : o.completions ≡ []
      none_yet = untold failures o runs h r i deliver at tt

      not_one : o.completion_type ≢ 1
      not_one one = absurd (
          ground (
            arith,
            r.one_writer,
            ap (λ n. bit (n == 1)) one,
            sum_mono writes holds runs writes-le,
            h.counted,
            h.once,
            sum-part delivers runs i deliver at,
          ))

      tells :
          (o' : Operation)
          → o'.completion_type ≡ o.completion_type
          → o'.stop_requested ≡ o.stop_requested
          → Told o'
          → Outcome failures o' (set runs i done)
      tells o' t s told' = record {
        one_writer =
            omega (
              arith,
              r.one_writer,
              ap (λ n. bit (n == 1)) t,
              sum-set writes runs i deliver done at,
            );
        in_range = omega (arith, r.in_range);
        not_failed =
            λ z. omega (arith, r.not_failed (omega arith), sum-set fails runs i deliver done at);
        has_failed =
            λ le. omega (arith, r.has_failed (omega arith), sum-set fails runs i deliver done at);
        no_stop = omega (arith, r.no_stop, sum-set by_stop runs i deliver done at);
        unasked = λ le. s ∙ r.unasked (omega (arith, sum-set before runs i deliver done at));
        told = told';
      }

      visits :
          (o.completion_type == 2) ≡ true
          → (e : Option ℕ) → o.errors ≡ e
          → Outcome failures (visit e o) (set runs i done)
      visits two none e = absurd (omega (arith, h.stored (omega (arith, ap bit two)), ap filled e))
      visits two (some k) e =
          tells (tell o (set_error k)) refl refl
            (of_error k ((==_iff o.completion_type 2).0 two) (ap (λ l. set_error k ∷ l) none_yet))

  -- the action of stop_source_, which no run takes before the sequence is running
  stops_source :
      get_elem? runs i ≡ some stop_source
      → Outcome failures (record o { stop_requested = true }) (set runs i leave)
  stops_source at = record {
    one_writer = omega (arith, r.one_writer, sum-set writes runs i stop_source leave at);
    in_range = r.in_range;
    not_failed = λ z. omega (arith, r.not_failed z, sum-set fails runs i stop_source leave at);
    has_failed = λ le. omega (arith, r.has_failed le, sum-set fails runs i stop_source leave at);
    no_stop = omega (arith, r.no_stop, sum-set by_stop runs i stop_source leave at);
    unasked = λ le. absurd (
        ground (
          arith,
          h.once,
          h.counted,
          sum-part holds runs i stop_source at,
          sum-set before runs i stop_source leave at,
        ));
    told = nothing (untold failures o runs h r i stop_source at tt);
  }

  never_stopped :
      (e : End)
      → 1 ≤ ends_by_stop e
      → (p : Pc) → get_elem? runs i ≡ some p
      → by_stop p ≡ ends_by_stop e
      → ⊥
  never_stopped e one p at same = omega (arith, r.no_stop, sum-part by_stop runs i p at)

  pub act_tells :
      (p : Pc)
      → get_elem? runs i ≡ some p
      → Ready p runs
      → Outcome failures (advance p o).1 (set runs i (advance p o).0)
  unfolding advance
  act_tells (starting e) at ready = starts o.stop_requested refl
    where
      starts :
          (b : Bool)
          → o.stop_requested ≡ b
          → (let s : Pc × Operation = if b then (done, tell o set_stopped) else (opening e, o) in
              Outcome failures s.1 (set runs i s.0))
      starts true s = absurd (cc (r.unasked (sum-part before runs i (starting e) at), s))
      starts false s =
          plain failures o runs h r i (starting e) (opening e) at tt refl refl refl (omega arith)
  act_tells (opening e) at ready =
      goes_on failures o runs h r i (opening e) (sequence e) (record o { ref_counter = 1 }) at tt
        refl refl (omega arith) r.in_range (λ z. (z, refl)) (λ le. inl (le, omega arith)) refl
        (omega arith)
  act_tells (sequence value) at ready =
      plain failures o runs h r i (sequence value) leave at ready refl refl refl (omega arith)
  act_tells (sequence stopped) at ready =
      absurd (never_stopped stopped (omega arith) (sequence stopped) at refl)
  act_tells (sequence (error e)) at ready =
      plain failures o runs h r i (sequence (error e)) (fail e) at ready refl refl refl
        (omega arith)
  act_tells (waiting a) at ready =
      plain failures o runs h r i (waiting a) (claim 1 a) at ready refl refl refl (omega arith)
  act_tells (claim x a) at ready = elim (Bool-cases (o.ref_counter == x)) [
    | inl e ↦ rw e (
        goes_on failures o runs h r i (claim x a) (allocate a)
          (record o { ref_counter = add64 x 1 }) at tt refl refl (omega arith) r.in_range
          (λ z. (z, refl)) (λ le. inl (le, omega arith)) refl (omega arith))
    | inr ne ↦ rw ne (elim (Bool-cases (o.ref_counter == 0)) [
      | inl z ↦ absurd (
          omega
            (arith, owned o runs h i (claim x a) at (omega arith), (==_iff o.ref_counter 0).0 z))
      | inr nz ↦ rw nz (
          plain failures o runs h r i (claim x a) (claim o.ref_counter a) at tt refl refl refl
            (omega arith))
    ])
  ]
  act_tells (allocate (allocated w)) at ready =
      plain failures o runs h r i (allocate (allocated w)) (start_item w) at tt refl refl refl
        (omega arith)
  act_tells (allocate (refused e)) at ready =
      plain failures o runs h r i (allocate (refused e)) (fail e) at tt refl refl refl (omega arith)
  act_tells (allocate given_up) at ready =
      plain failures o runs h r i (allocate given_up) ask_stop at tt refl refl refl (omega arith)
  act_tells (start_item w) at ready = starts o.stop_requested
    where
      starts : (b : Bool) → Outcome failures o (set runs i (if b then leave else work w))
      starts true =
          plain failures o runs h r i (start_item w) leave at tt refl refl refl (omega arith)
      starts false =
          plain failures o runs h r i (start_item w) (work w) at tt refl refl refl (omega arith)
  act_tells (work succeeds) at ready =
      plain failures o runs h r i (work succeeds) leave at tt refl refl refl (omega arith)
  act_tells (work stops) at ready =
      plain failures o runs h r i (work stops) ask_stop at tt refl refl refl (omega arith)
  act_tells (fail e) at ready = elim (Bool-cases (o.completion_type == 0)) [
    | inl z ↦ rw z (
        goes_on failures o runs h r i (fail e) (emplace e) (record o { completion_type = 1 }) at tt
          refl refl (omega (arith, ap (λ n. bit (n == 1)) ((==_iff o.completion_type 0).0 z)))
          (omega arith) (λ f. absurd (omega arith))
          (λ le. inr ((==_iff o.completion_type 0).0 z, omega arith)) refl (omega arith))
    | inr nz ↦ rw nz (
        goes_on failures o runs h r i (fail e) ask_stop o at tt refl refl (omega arith) r.in_range
          (λ z. absurd (ground (arith, nz))) (λ le. inl (le, omega arith)) refl (omega arith))
  ]
  act_tells (emplace e) at ready =
      goes_on failures o runs h r i (emplace e) publish (record o { errors = some e }) at tt refl
        refl (omega arith) r.in_range (λ z. (z, refl)) (λ le. inl (le, omega arith)) refl
        (omega arith)
  act_tells publish at ready =
      let one : o.completion_type ≡ 1 =
        ground (arith, r.one_writer, sum-part writes runs i publish at) in
      rw ((==_iff o.completion_type 1).1 one) (
        goes_on failures o runs h r i publish ask_stop (record o { completion_type = 2 }) at tt refl
          refl (omega (arith, ap (λ n. bit (n == 1)) one)) (omega arith) (λ f. absurd (omega arith))
          (λ le. inl (omega arith, omega arith)) refl (omega arith))
  act_tells ask_stop at ready = asks o.is_stop_requested
    where
      asks :
          (b : Bool)
          → Outcome failures
              (record o { is_stop_requested = true })
              (set runs i (if b then leave else stop_source))
      asks true =
          goes_on failures o runs h r i ask_stop leave (record o { is_stop_requested = true }) at tt
            refl refl (omega arith) r.in_range (λ z. (z, refl)) (λ le. inl (le, omega arith)) refl
            (omega arith)
      asks false =
          goes_on failures o runs h r i ask_stop stop_source (record o { is_stop_requested = true })
            at tt refl refl (omega arith) r.in_range (λ z. (z, refl)) (λ le. inl (le, omega arith))
            refl (omega arith)
  act_tells stop_source at ready = stops_source at
  act_tells leave at ready = leaves (o.ref_counter == 1)
    where
      leaves :
          (b : Bool)
          → Outcome failures
              (record o { ref_counter = sub64 o.ref_counter 1 })
              (set runs i (if b then deliver else done))
      leaves true =
          goes_on failures o runs h r i leave deliver
            (record o { ref_counter = sub64 o.ref_counter 1 }) at tt refl refl (omega arith)
            r.in_range (λ z. (z, refl)) (λ le. inl (le, omega arith)) refl (omega arith)
      leaves false =
          goes_on failures o runs h r i leave done
            (record o { ref_counter = sub64 o.ref_counter 1 }) at tt refl refl (omega arith)
            r.in_range (λ z. (z, refl)) (λ le. inl (le, omega arith)) refl (omega arith)
  act_tells deliver at ready = delivers_to at
  act_tells done at ready = absurd ready
  act_tells callback at ready =
      plain failures o runs h r i callback ask_stop at tt refl refl refl (omega arith)
