-- ===== src/Fork/Tests.antt =====
-- Runs of fork, and of what is proved of it.
use senders_io.Prelude.{
  sum, ℕ, ◌≤◌, ◌<◌, ◌≡◌, refl, ◌⊎◌, some, [], ◌∷◌, arith, length, get_elem?, size_max, add64, sub64,
}
use senders_io.Interleaving.{System, Trace, here, acts, move}
use senders_io.Fork.{
  value, allocated, refused, succeeds, set_error, value_unless_stopped, Pc, starting, opening,
  sequence, waiting, claim, allocate, fail, emplace, publish, ask_stop, stop_source, leave, deliver,
  Operation, complete, advance, Ready, init, init_with_stop,
}
use senders_io.Fork.Counter.{holds}
use senders_io.Fork.Once.{active, completes_last}
use senders_io.Fork.Outcome.{fails}
use senders_io.Fork.Result.{tells_what_happened}
use senders_io.Fork.Stop.{stop_completes_early}

-- a sequence with one item, for which async_new fails
abbrev one_item : System Operation Pc
one_item = init value (refused 5 ∷ [])

one_open : 1 ≤ 1
one_open = omega arith

abbrev ended : System Operation Pc
unfolding advance complete add64 sub64
ended =
    (move advance Ready
      (move advance Ready
        (move advance Ready
          (move advance Ready
            (move advance Ready
              (move advance Ready
                (move advance Ready
                  (move advance Ready
                    (move advance Ready
                      (move advance Ready
                        (move advance Ready
                          (move advance Ready
                            (move advance Ready (move advance Ready one_item 0 (starting value)) 0
                              (opening value))
                            1 (waiting (refused 5)))
                          1 (claim 1 (refused 5)))
                        1 (allocate (refused 5)))
                      1 (fail 5))
                    0 (sequence value))
                  1 (emplace 5))
                1 publish)
              0 leave)
            1 ask_stop)
          1 stop_source)
        1 leave)
      1 deliver)

ended_run : ended.op.completions ≡ set_error 5 ∷ []
unfolding advance complete add64 sub64
ended_run = refl

abbrev whole : Trace advance Ready one_item 14 ended
unfolding advance complete add64 sub64
whole =
    (acts 13 _ 1 deliver
      (acts 12 _ 1 leave
        (acts 11 _ 1 stop_source
          (acts 10 _ 1 ask_stop
            (acts 9 _ 0 leave
              (acts 8 _ 1 publish
                (acts 7 _ 1 (emplace 5)
                  (acts 6 _ 0 (sequence value)
                    (acts 5 _ 1 (fail 5)
                      (acts 4 _ 1 (allocate (refused 5))
                        (acts 3 _ 1 (claim 1 (refused 5))
                          (acts 2 _ 1 (waiting (refused 5))
                            (acts 1 _ 0 (opening value)
                              (acts 0 one_item 0 (starting value) here refl tt) refl tt)
                            refl one_open)
                          refl tt)
                        refl tt)
                      refl tt)
                    refl refl)
                  refl tt)
                refl tt)
              refl tt)
            refl tt)
          refl tt)
        refl tt)
      refl tt)

tells_what_happened_example :
    ((sum fails ended.runs ≡ 1) × (ended.op.completions ≡ value_unless_stopped ∷ []))
    ⊎ ((sum fails ended.runs < 1) × ((e : ℕ) × (ended.op.completions ≡ set_error e ∷ [])))
unfolding advance complete add64 sub64
tells_what_happened_example =
    tells_what_happened value (refused 5 ∷ []) 14 ended (omega arith) refl whole (omega arith)

completes_last_example :
    (ended.op.ref_counter ≡ sum holds ended.runs)
    × (((length ended.op.completions ≡ 1) × (sum active ended.runs ≡ 0))
        ⊎ ((length ended.op.completions ≡ 0)
            × ((i : ℕ) × (p : Pc) × (get_elem? ended.runs i ≡ some p) × Ready p ended.runs)))
unfolding advance complete add64 sub64
completes_last_example = completes_last value (refused 5 ∷ []) 14 ended (omega arith) whole

stop_completes_early_example :
    (s : System Operation Pc) × Trace advance Ready
      (init_with_stop value (allocated succeeds ∷ []))
      7
      s
    × (s.op.completions ≡ value_unless_stopped ∷ [])
    × (get_elem? s.runs 0 ≡ some (sequence value))
    × (s.op.ref_counter ≡ 0)
    × ((advance leave s.op).1.ref_counter ≡ size_max)
stop_completes_early_example = stop_completes_early value (allocated succeeds ∷ [])
