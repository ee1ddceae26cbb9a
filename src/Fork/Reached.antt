-- ===== src/Fork/Reached.antt =====
-- The states that source/sio/sequence/fork.hpp can reach when nobody asks the receiver to stop.
use senders_io.Prelude.{
  sum-map_const, sum-part, ℕ, ◌+◌, ◌<◌, ◌≡◌, refl, ap, inl, inr, Bool, true, false, some, List,
  arith, ◌==◌, if◌then◌else◌, ==_iff, Bool-cases, length, get_elem?, set, length-map, size_mod,
}
use senders_io.Interleaving.{System, Trace, Trace-keeps}
use senders_io.Fork.{
  End, value, stopped, error, succeeds, stops, Allocation, allocated, refused, given_up,
  set_stopped, Pc, starting, opening, sequence, waiting, claim, allocate, start_item, work, fail,
  emplace, publish, ask_stop, stop_source, leave, deliver, done, callback, Operation, tell, advance,
  opened, asking, Ready, init,
}
use senders_io.Fork.Counter.{
  holds, before, delivers, written, callbacks, bit, Holds, moves, same_sequence, same_error, plain,
  no_callback, owned,
}
use senders_io.Fork.Steps.{opens, claims, leaves, tells, asks, completes, delivers_to}

module _ (o : Operation) (runs : List Pc) (h : Holds o runs) (i : ℕ) where
  pub act :
      (p : Pc)
      → get_elem? runs i ≡ some p
      → Ready p runs
      → Holds (advance p o).1 (set runs i (advance p o).0)
  unfolding advance
  act (starting e) at ready = starts o.stop_requested
    where
      starts :
          (b : Bool)
          → (let r : Pc × Operation = if b then (done, tell o set_stopped) else (opening e, o) in
              Holds r.1 (set runs i r.0))
      starts true =
          tells o runs h i (starting e) (tell o set_stopped) at refl refl refl (omega arith) refl
            refl refl refl
      starts false =
          plain o runs h i (starting e) (opening e) at refl refl refl refl refl (omega arith)
            (omega arith)
  act (opening e) at ready = opens o runs h i e at
  act (sequence value) at ready =
      completes o runs h i value leave o at ready refl refl refl refl refl refl refl refl refl
        h.stored
  act (sequence stopped) at ready =
      completes o runs h i stopped ask_stop (record o { completion_type = 3 }) at ready refl refl
        refl refl refl refl refl refl refl (λ le. h.stored (omega arith))
  act (sequence (error e)) at ready =
      completes o runs h i (error e) (fail e) o at ready refl refl refl refl refl refl refl refl
        refl h.stored
  act (waiting a) at ready = asks o runs h i a at ready
  act (claim x a) at ready = elim (Bool-cases (o.ref_counter == x)) [
    | inl e ↦ rw e (claims o runs h i x a at ((==_iff o.ref_counter x).0 e))
    | inr ne ↦ rw ne (elim (Bool-cases (o.ref_counter == 0)) [
      | inl z ↦ absurd (
          omega
            (arith, owned o runs h i (claim x a) at (omega arith), (==_iff o.ref_counter 0).0 z))
      | inr nz ↦ rw nz (
          plain o runs h i (claim x a) (claim o.ref_counter a) at refl refl refl refl refl
            (omega arith) (omega arith))
    ])
  ]
  act (allocate (allocated w)) at ready =
      plain o runs h i (allocate (allocated w)) (start_item w) at refl refl refl refl refl
        (omega arith) (omega arith)
  act (allocate (refused e)) at ready =
      plain o runs h i (allocate (refused e)) (fail e) at refl refl refl refl refl (omega arith)
        (omega arith)
  act (allocate given_up) at ready =
      plain o runs h i (allocate given_up) ask_stop at refl refl refl refl refl (omega arith)
        (omega arith)
  act (start_item w) at ready = starts o.stop_requested
    where
      starts : (b : Bool) → Holds o (set runs i (if b then leave else work w))
      starts true =
          plain o runs h i (start_item w) leave at refl refl refl refl refl (omega arith)
            (omega arith)
      starts false =
          plain o runs h i (start_item w) (work w) at refl refl refl refl refl (omega arith)
            (omega arith)
  act (work succeeds) at ready =
      plain o runs h i (work succeeds) leave at refl refl refl refl refl (omega arith) (omega arith)
  act (work stops) at ready =
      plain o runs h i (work stops) ask_stop at refl refl refl refl refl (omega arith) (omega arith)
  act (fail e) at ready = elim (Bool-cases (o.completion_type == 0)) [
    | inl z ↦ rw z (
        moves o runs h i (fail e) (emplace e) (record o { completion_type = 1 }) at refl refl refl
          (omega arith) refl refl refl
          (same_sequence o runs h i (fail e) (emplace e) at (omega arith) refl)
          (λ le. same_error o runs h i (fail e) (emplace e) at (omega arith) (omega arith)))
    | inr nz ↦
        rw nz (
          plain o runs h i (fail e) ask_stop at refl refl refl refl refl (omega arith)
            (omega arith))
  ]
  act (emplace e) at ready =
      moves o runs h i (emplace e) publish (record o { errors = some e }) at refl refl refl
        (omega arith) refl refl refl
        (same_sequence o runs h i (emplace e) publish at (omega arith) refl) (λ le. omega arith)
  act publish at ready = elim (Bool-cases (o.completion_type == 1)) [
    | inl one ↦ rw one (
        moves o runs h i publish ask_stop (record o { completion_type = 2 }) at refl refl refl
          (omega arith) refl refl refl
          (same_sequence o runs h i publish ask_stop at (omega arith) refl)
          (λ le. h.stored (omega (arith, sum-part written runs i publish at))))
    | inr ne ↦
        rw ne (
          plain o runs h i publish ask_stop at refl refl refl refl refl (omega arith) (omega arith))
  ]
  act ask_stop at ready = elim (Bool-cases o.is_stop_requested) [
    | inl s ↦ rw s (
        moves o runs h i ask_stop leave (record o { is_stop_requested = true }) at refl refl refl
          (omega arith) refl refl refl
          (same_sequence o runs h i ask_stop leave at (omega arith) refl)
          (same_error o runs h i ask_stop leave at (omega arith)))
    | inr ns ↦ rw ns (
        moves o runs h i ask_stop stop_source (record o { is_stop_requested = true }) at refl refl
          refl (omega arith) refl refl refl
          (same_sequence o runs h i ask_stop stop_source at (omega arith) refl)
          (same_error o runs h i ask_stop stop_source at (omega arith)))
  ]
  act stop_source at ready =
      moves o runs h i stop_source leave (record o { stop_requested = true }) at refl refl refl
        (omega arith) refl refl refl
        (same_sequence o runs h i stop_source leave at (omega arith) refl)
        (same_error o runs h i stop_source leave at (omega arith))
  act leave at ready = elim (Bool-cases (o.ref_counter == 1)) [
    | inl e ↦
        rw e (leaves o runs h i deliver at refl refl refl refl refl refl (omega (arith, ap bit e)))
    | inr ne ↦
        rw ne (leaves o runs h i done at refl refl refl refl refl refl (omega (arith, ap bit ne)))
  ]
  act deliver at ready = delivers_to o runs h i at
  act done at ready = absurd ready
  act callback at ready = absurd (omega (arith, no_callback o runs h i callback at))

pub begins :
    (last : End) (items : List Allocation)
    → length items + 2 < size_mod
    → Holds (init last items).op (init last items).runs
begins last items small = record {
  counted = omega (arith, sum-map_const holds waiting 0 items (λ a. refl));
  in_sequence = λ le. absurd (omega (arith, sum-map_const asking waiting 0 items (λ a. refl)));
  sole = omega (
    arith,
    sum-map_const opened waiting 0 items (λ a. refl),
    sum-map_const before waiting 0 items (λ a. refl),
  );
  once = omega (
    arith,
    sum-map_const delivers waiting 0 items (λ a. refl),
    sum-map_const before waiting 0 items (λ a. refl),
  );
  stored = λ le. absurd (omega (arith, sum-map_const written waiting 0 items (λ a. refl)));
  unasked = omega (arith, sum-map_const callbacks waiting 0 items (λ a. refl));
  few = omega (arith, length-map items waiting);
}

pub Trace-Holds :
    (last : End) (items : List Allocation) {n : ℕ} {s : System Operation Pc}
    → length items + 2 < size_mod
    → Trace advance Ready (init last items) n s
    → Holds s.op s.runs
Trace-Holds last items small =
    Trace-keeps advance Ready (λ s. Holds s.op s.runs)
      (λ t i pc h at ready. act t.op t.runs h i pc at ready) (begins last items small)
