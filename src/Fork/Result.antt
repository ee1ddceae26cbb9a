-- ===== src/Fork/Result.antt =====
-- What the receiver of source/sio/sequence/fork.hpp was told at the end, if nobody asks it to stop.
use senders_io.Prelude.{
  sum-map_const, sum, ℕ, ◌+◌, ◌≤◌, ◌<◌, ◌≡◌, refl, ap, ◌⊎◌, inl, inr, List, [], ◌∷◌, arith, length,
  size_mod,
}
use senders_io.Interleaving.{System, Trace, Trace-keeps}
use senders_io.Fork.{
  End, Allocation, value_unless_stopped, set_error, Pc, waiting, Operation, advance, Ready, init,
}
use senders_io.Fork.Counter.{Holds}
use senders_io.Fork.Reached.{begins, act}
use senders_io.Fork.Outcome.{
  fails, writes, by_stop, ends_by_stop, nothing, of_value, of_error, Outcome,
}
use senders_io.Fork.Told.{act_tells}

begins_untold :
    (last : End) (items : List Allocation)
    → ends_by_stop last ≡ 0
    → Outcome (sum fails (init last items).runs) (init last items).op (init last items).runs
begins_untold last items e = record {
  one_writer = omega (arith, sum-map_const writes waiting 0 items (λ a. refl));
  in_range = omega arith;
  not_failed = λ z. refl;
  has_failed = λ le. absurd (omega arith);
  no_stop = omega (arith, e, sum-map_const by_stop waiting 0 items (λ a. refl));
  unasked = λ le. refl;
  told = nothing refl;
}

Trace-Outcome :
    (last : End) (items : List Allocation) {n : ℕ} {s : System Operation Pc}
    → length items + 2 < size_mod
    → ends_by_stop last ≡ 0
    → Trace advance Ready (init last items) n s
    → Holds s.op s.runs × Outcome (sum fails (init last items).runs) s.op s.runs
Trace-Outcome last items small e =
    Trace-keeps advance Ready
      (λ s. Holds s.op s.runs × Outcome (sum fails (init last items).runs) s.op s.runs)
      (λ t i p k at ready. (
        act t.op t.runs k.0 i p at ready,
        act_tells (sum fails (init last items).runs) t.op t.runs k.0 k.1 i p at ready,
      ))
      (begins last items small, begins_untold last items e)

-- Nobody asks the receiver to stop, and the sequence does not end by set_stopped. Once the receiver of
-- the whole was completed, it was told value_unless_stopped, if no failure was met: neither of the
-- sequence itself nor of an item that was asked for; otherwise it was told an error. The failures that
-- are left are those of items that were not asked for.
pub tells_what_happened :
    (last : End) (items : List Allocation) (n : ℕ) (s : System Operation Pc)
    → length items + 2 < size_mod
    → ends_by_stop last ≡ 0
    → Trace advance Ready (init last items) n s
    → 1 ≤ length s.op.completions
    → ((sum fails s.runs ≡ sum fails (init last items).runs)
        × (s.op.completions ≡ value_unless_stopped ∷ []))
      ⊎ ((sum fails s.runs < sum fails (init last items).runs)
          × ((e : ℕ) × (s.op.completions ≡ set_error e ∷ [])))
tells_what_happened last items n s small e path le = elim r.told [
  | nothing none_told ↦ absurd (omega (arith, le, ap (λ l. length l) none_told))
  | of_value z told ↦ inl (r.not_failed z, told)
  | of_error k two told ↦ inr (omega (arith, r.has_failed (omega (arith, two))), (k, told))
]
  where
    r : Outcome (sum fails (init last items).runs) s.op s.runs
    r = (Trace-Outcome last items small e path).1
