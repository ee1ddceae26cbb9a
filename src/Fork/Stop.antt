-- ===== src/Fork/Stop.antt =====
-- What source/sio/sequence/fork.hpp does when the receiver is asked to stop: on_stop_requested gives
-- back a reference that the stop callback does not own.
use senders_io.Prelude.{◌≡◌, refl, some, List, [], ◌∷◌, get_elem?, size_max, sub64}
use senders_io.Interleaving.{System, Trace, here, acts, move}
use senders_io.Fork.{
  End, Allocation, Pc, starting, opening, sequence, ask_stop, stop_source, leave, deliver, callback,
  value_unless_stopped, Operation, complete, advance, Ready, init_with_stop,
}

module _ (last : End) (items : List Allocation) where
  abbrev started : System Operation Pc
  unfolding advance
  started = move advance Ready (init_with_stop last items) 0 (starting last)

  abbrev opened_ : System Operation Pc
  unfolding advance
  opened_ = move advance Ready started 0 (opening last)

  abbrev called : System Operation Pc
  unfolding advance
  called = move advance Ready opened_ 1 callback

  abbrev asked : System Operation Pc
  unfolding advance
  asked = move advance Ready called 1 ask_stop

  abbrev source_stopped : System Operation Pc
  unfolding advance
  source_stopped = move advance Ready asked 1 stop_source

  abbrev left : System Operation Pc
  unfolding advance
  left = move advance Ready source_stopped 1 leave

  abbrev delivered : System Operation Pc
  unfolding advance complete
  delivered = move advance Ready left 1 deliver

  -- For every sequence, a stop request after start leads to a state in which the receiver of the whole
  -- was completed, though the sequence is still running, with its operation inside that of fork, and
  -- when the sequence ends, ref_counter_ falls below 0.
  pub stop_completes_early :
      (s : System Operation Pc) × Trace advance Ready (init_with_stop last items) 7 s
      × (s.op.completions ≡ value_unless_stopped ∷ [])
      × (get_elem? s.runs 0 ≡ some (sequence last))
      × (s.op.ref_counter ≡ 0)
      × ((advance leave s.op).1.ref_counter ≡ size_max)
  unfolding advance complete sub64
  stop_completes_early = (
    delivered,
    acts 6 left 1 deliver
        (acts 5 source_stopped 1 leave
          (acts 4 asked 1 stop_source
            (acts 3 called 1 ask_stop
              (acts 2 opened_ 1 callback
                (acts 1 started 0 (opening last)
                  (acts 0 (init_with_stop last items) 0 (starting last) here refl tt) refl tt)
                refl tt)
              refl tt)
            refl tt)
          refl tt)
        refl tt,
    refl,
    refl,
    refl,
    refl,
  )
