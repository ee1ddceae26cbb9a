-- ===== src/Zip/Tests.antt =====
-- Runs of zip, and of what is proved of it.
use senders_io.Prelude.{
  sum, ℕ, ◌*◌, ◌≤◌, ◌≢◌, ◌⊎◌, length, ◌≡◌, refl, false, some, List, [], ◌∷◌, ◌++◌, arith, get_elem?,
}
use mathlib.Core.Option
use senders_io.Interleaving.{System, Trace, here, acts, move}
use senders_io.Zip.Slots.{alive}
use senders_io.Zip.Together.{come_in, single_items_make_one_row}
use senders_io.Zip.{
  Zip, has_item, push_back, Pc, begin, enqueue, notify, collect, pop, check, count, start, done,
  request_stop, faulted, advance, add32, Ready, fresh, run_alone,
}
use senders_io.Zip.Columns.{column}
use senders_io.Zip.Rows.{run_all, items_of, zips_in_order}
use senders_io.Zip.End
use senders_io.Zip.End.{
  value, stopped, set_error, items, item_stop, finish, Sequence, Ending, begun, last_value,
  last_completion,
}
use senders_io.Zip.Race.{three_items, two_items, second_item_faults, stop_empties_queues}

-- three items of the first sequence and two of the second
zip_run :
    Option.map (λ (o : Zip). o.rows) (run_all 0 (0 ∷ 0 ∷ 1 ∷ 0 ∷ 1 ∷ []) (fresh 2))
    ≡ some ((0 ∷ 2 ∷ []) ∷ (1 ∷ 4 ∷ []) ∷ [])
unfolding run_all run_alone advance push_back add32
zip_run = refl

zips_in_order_example :
    (o : Zip) × (run_all 0 (0 ∷ 0 ∷ 1 ∷ []) (fresh 2) ≡ some o)
    × ((j : ℕ) (q : List ℕ)
        → get_elem? o.item_queues j ≡ some q
        → column j o.rows ++ q ≡ items_of j 0 (0 ∷ 0 ∷ 1 ∷ []))
    × ((j : ℕ) × (get_elem? o.item_queues j ≡ some []))
    × (o.n_ready_next_items ≡ sum has_item o.item_queues)
zips_in_order_example = zips_in_order 2 (0 ∷ 0 ∷ 1 ∷ []) (omega arith) (omega arith) (omega arith)

second_item_faults_example :
    (s : System Zip Pc) × Trace advance Ready (three_items (request_stop ∷ [])) 15 s
    × (get_elem? s.runs 2 ≡ some faulted)
    × (s.op.item_queues ≡ (3 ∷ []) ∷ [] ∷ [])
    × (s.op.n_ready_next_items ≡ 2)
    × (s.op.rows ≡ (1 ∷ 2 ∷ []) ∷ [])
second_item_faults_example = second_item_faults (request_stop ∷ [])

-- a sequence with an item that fails, and one that ends by set_value last
abbrev failing : List Sequence
failing =
    record { failed_items = 4 ∷ []; ends = stopped }
    ∷ record { failed_items = []; ends = value }
    ∷ []

abbrev failed : System Ending End.Pc
unfolding End.advance last_completion last_value
failed =
    (move (End.advance false) End.Ready
      (move (End.advance false) End.Ready
        (move (End.advance false) End.Ready
          (move (End.advance false) End.Ready
            (move (End.advance false) End.Ready
              (move (End.advance false) End.Ready (begun failing) 0 (items (4 ∷ []) stopped)) 0
              (item_stop [] stopped))
            0 (items [] stopped))
          1 (items [] value))
        0 End.stop)
      1 (finish value))

failed_run : failed.op.completions ≡ set_error 4 ∷ []
unfolding End.advance last_completion last_value
failed_run = refl

abbrev pair : List ℕ
pair = 4 ∷ 5 ∷ []

abbrev row_of_pair : System Zip Pc
unfolding advance push_back add32
row_of_pair =
    (move advance Ready
      (move advance Ready
        (move advance Ready
          (move advance Ready
            (move advance Ready
              (move advance Ready
                (move advance Ready
                  (move advance Ready
                    (move advance Ready
                      (move advance Ready (move advance Ready (come_in pair) 0 (begin 0 4)) 1
                        (begin 1 5))
                      1 (enqueue 1 5))
                    0 (enqueue 0 4))
                  1 (notify 1 5))
                0 (notify 0 4))
              0 (collect 0))
            0 (pop 0 pair))
          0 (check 0 pair pair))
        0 (count 0 pair))
      0 (start 0 pair false))

both_items : Trace advance Ready (come_in pair) 11 row_of_pair
unfolding advance push_back add32
both_items =
    (acts 10 _ 0 (start 0 pair false)
      (acts 9 _ 0 (count 0 pair)
        (acts 8 _ 0 (check 0 pair pair)
          (acts 7 _ 0 (pop 0 pair)
            (acts 6 _ 0 (collect 0)
              (acts 5 _ 0 (notify 0 4)
                (acts 4 _ 1 (notify 1 5)
                  (acts 3 _ 0 (enqueue 0 4)
                    (acts 2 _ 1 (enqueue 1 5)
                      (acts 1 _ 1 (begin 1 5) (acts 0 (come_in pair) 0 (begin 0 4) here refl tt)
                        refl tt)
                      refl tt)
                    refl tt)
                  refl tt)
                refl tt)
              refl tt)
            refl tt)
          refl tt)
        refl tt)
      refl tt)

single_items_make_one_row_example :
    (11 ≤ length pair * 8)
    × ((i : ℕ) → get_elem? row_of_pair.runs i ≢ some faulted)
    × (1 ≤ sum alive row_of_pair.runs
        → (i : ℕ) × (p : Pc) × (get_elem? row_of_pair.runs i ≡ some p) × Ready p row_of_pair.runs)
    × ((row_of_pair.op.rows ≡ []) ⊎ (row_of_pair.op.rows ≡ pair ∷ []))
    × (sum alive row_of_pair.runs ≡ 0 → row_of_pair.op.rows ≡ pair ∷ [])
single_items_make_one_row_example =
    single_items_make_one_row pair (omega arith) (omega arith) 11 row_of_pair both_items

stop_empties_queues_example :
    (s : System Zip Pc) × Trace advance Ready (two_items []) 9 s
    × (get_elem? s.runs 1 ≡ some faulted)
    × (get_elem? s.runs 2 ≡ some done)
    × (s.op.item_queues ≡ [] ∷ [] ∷ [])
    × (s.op.completed ≡ 1 ∷ 2 ∷ [])
    × (s.op.rows ≡ [])
stop_empties_queues_example = stop_empties_queues []
