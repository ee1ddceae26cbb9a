-- ===== src/First/Tests.antt =====
-- Runs of first, and of what is proved of it.
use senders_io.Prelude.{sum, ℕ, ◌≤◌, ◌≡◌, refl, ◌⊎◌, false, some, [], ◌∷◌, length, get_elem?}
use senders_io.Interleaving.{System, Trace, here, acts, move}
use senders_io.First.{
  set_value, set_error, Pc, running, construct, publish, stop_item, sequence, value, Operation,
  visit_result, advance, Ready, init,
}
use senders_io.First.Once.{unfinished, first_runs_end, first_completes_once}
use senders_io.First.Winner.{first_item_wins}

-- two items, of which the second completes first
abbrev two_items : System Operation Pc
two_items = init value (set_value 7 ∷ set_error 3 ∷ [])

abbrev claimed : System Operation Pc
unfolding advance
claimed = move advance Ready two_items 2 (running (set_error 3))

abbrev item_1 : System Operation Pc
unfolding advance
item_1 = move advance Ready claimed 1 (running (set_value 7))

abbrev item_2 : System Operation Pc
unfolding advance
item_2 = move advance Ready item_1 2 (construct (set_error 3))

abbrev item_3 : System Operation Pc
unfolding advance
item_3 = move advance Ready item_2 2 publish

abbrev item_4 : System Operation Pc
unfolding advance
item_4 = move advance Ready item_3 2 stop_item

abbrev item_5 : System Operation Pc
unfolding advance
item_5 = move advance Ready item_4 1 stop_item

abbrev ended : System Operation Pc
unfolding advance visit_result
ended = move advance Ready item_5 0 (sequence value)

ended_run : ended.op.completions ≡ set_error 3 ∷ []
unfolding advance visit_result
ended_run = refl

abbrev after_claim : Trace advance Ready claimed 6 ended
unfolding advance visit_result
after_claim =
    acts 5 item_5 0 (sequence value)
      (acts 4 item_4 1 stop_item
        (acts 3 item_3 2 stop_item
          (acts 2 item_2 2 publish
            (acts 1 item_1 2 (construct (set_error 3))
              (acts 0 claimed 1 (running (set_value 7)) here refl tt) refl tt)
            refl tt)
          refl tt)
        refl tt)
      refl refl

first_item_wins_example : ended.op.completions ≡ set_error 3 ∷ []
unfolding advance visit_result
first_item_wins_example =
    first_item_wins (set_error 3) (set_value 7 ∷ set_error 3 ∷ []) 0 two_items 2 here refl refl 6
      ended after_claim refl

abbrev whole : Trace advance Ready two_items 7 ended
unfolding advance visit_result
whole =
    acts 6 item_5 0 (sequence value)
      (acts 5 item_4 1 stop_item
        (acts 4 item_3 2 stop_item
          (acts 3 item_2 2 publish
            (acts 2 item_1 2 (construct (set_error 3))
              (acts 1 claimed 1 (running (set_value 7))
                (acts 0 two_items 2 (running (set_error 3)) here refl tt) refl tt)
              refl tt)
            refl tt)
          refl tt)
        refl tt)
      refl refl

first_runs_end_example :
    (7 ≤ 9)
    × ((sum unfinished ended.runs ≡ 0)
        ⊎ ((i : ℕ) × (p : Pc) × (get_elem? ended.runs i ≡ some p) × Ready p ended.runs))
unfolding advance visit_result
first_runs_end_example = first_runs_end value (set_value 7 ∷ set_error 3 ∷ []) 7 ended whole

first_completes_once_example :
    (length ended.op.completions ≡ 1)
    × (ended.op.item_stops ≡ 2)
    × (1 ≤ 2 → ended.op.read_uninitialised ≡ false)
unfolding advance visit_result
first_completes_once_example =
    first_completes_once value (set_value 7 ∷ set_error 3 ∷ []) 7 ended whole refl

abbrev empty_end : System Operation Pc
unfolding advance visit_result
empty_end = move advance Ready (init value []) 0 (sequence value)
