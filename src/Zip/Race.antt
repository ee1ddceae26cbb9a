-- ===== src/Zip/Race.antt =====
-- Races of source/sio/sequence/zip.hpp. Of two items of one sequence at the same time, the second one
-- is put into its queue after the first was taken, and is counted there by the run that took the
-- first, and once more by its own run. And a stop may empty the queues after the last item was counted
-- and before the results are collected.
use senders_io.Prelude.{◌≡◌, refl, false, some, List, [], ◌∷◌, get_elem?}
use senders_io.Interleaving.{System, Trace, here, acts, move}
use senders_io.Zip.{
  Zip, push_back, Pc, request_stop, drain, done, begin, enqueue, notify, collect, pop, check, count,
  start, faulted, advance, add32, Ready, fresh,
}

-- items 1 and 3 of the first of two sequences and item 2 of the other, with any runs besides
abbrev pub three_items : List Pc → System Zip Pc
three_items rest = record { op = fresh 2; runs = begin 0 1 ∷ begin 1 2 ∷ begin 0 3 ∷ rest }

abbrev pub counted_twice : List Pc → System Zip Pc
unfolding advance push_back add32
counted_twice rest =
    (move advance Ready
      (move advance Ready
        (move advance Ready
          (move advance Ready
            (move advance Ready
              (move advance Ready
                (move advance Ready
                  (move advance Ready
                    (move advance Ready
                      (move advance Ready
                        (move advance Ready
                          (move advance Ready
                            (move advance Ready
                              (move advance Ready
                                (move advance Ready (three_items rest) 0 (begin 0 1)) 0
                                (enqueue 0 1))
                              0 (notify 0 1))
                            1 (begin 1 2))
                          1 (enqueue 1 2))
                        1 (notify 1 2))
                      1 (collect 1))
                    1 (pop 1 (1 ∷ 2 ∷ [])))
                  1 (check 1 (1 ∷ 2 ∷ []) (1 ∷ 2 ∷ [])))
                2 (begin 0 3))
              2 (enqueue 0 3))
            1 (count 1 (1 ∷ 2 ∷ [])))
          1 (start 1 (1 ∷ 2 ∷ []) false))
        2 (notify 0 3))
      2 (collect 0))

-- Whatever else is running, the items 1 and 2 make a row, and after it item 3, which waits alone, is
-- counted twice: n_ready_next_items_ becomes 2 with one item in the queues, and the run of item 3
-- reads the front of an empty queue.
pub second_item_faults :
    (rest : List Pc)
    → (s : System Zip Pc) × Trace advance Ready (three_items rest) 15 s
      × (get_elem? s.runs 2 ≡ some faulted)
      × (s.op.item_queues ≡ (3 ∷ []) ∷ [] ∷ [])
      × (s.op.n_ready_next_items ≡ 2)
      × (s.op.rows ≡ (1 ∷ 2 ∷ []) ∷ [])
unfolding advance push_back add32
second_item_faults rest = (
  counted_twice rest,
  (acts 14 _ 2 (collect 0)
      (acts 13 _ 2 (notify 0 3)
        (acts 12 _ 1 (start 1 (1 ∷ 2 ∷ []) false)
          (acts 11 _ 1 (count 1 (1 ∷ 2 ∷ []))
            (acts 10 _ 2 (enqueue 0 3)
              (acts 9 _ 2 (begin 0 3)
                (acts 8 _ 1 (check 1 (1 ∷ 2 ∷ []) (1 ∷ 2 ∷ []))
                  (acts 7 _ 1 (pop 1 (1 ∷ 2 ∷ []))
                    (acts 6 _ 1 (collect 1)
                      (acts 5 _ 1 (notify 1 2)
                        (acts 4 _ 1 (enqueue 1 2)
                          (acts 3 _ 1 (begin 1 2)
                            (acts 2 _ 0 (notify 0 1)
                              (acts 1 _ 0 (enqueue 0 1)
                                (acts 0 (three_items rest) 0 (begin 0 1) here refl tt) refl tt)
                              refl tt)
                            refl tt)
                          refl tt)
                        refl tt)
                      refl tt)
                    refl tt)
                  refl tt)
                refl tt)
              refl tt)
            refl tt)
          refl tt)
        refl tt)
      refl tt),
  refl,
  refl,
  refl,
  refl,
)

-- items 1 and 2 of two sequences, a call of notify_stop, and any runs besides
abbrev pub two_items : List Pc → System Zip Pc
two_items rest = record { op = fresh 2; runs = begin 0 1 ∷ begin 1 2 ∷ request_stop ∷ rest }

abbrev both_ready : List Pc → System Zip Pc
unfolding advance push_back add32
both_ready rest =
    (move advance Ready
      (move advance Ready
        (move advance Ready
          (move advance Ready
            (move advance Ready (move advance Ready (two_items rest) 0 (begin 0 1)) 0 (enqueue 0 1))
            0 (notify 0 1))
          1 (begin 1 2))
        1 (enqueue 1 2))
      1 (notify 1 2))

abbrev emptied : List Pc → System Zip Pc
unfolding advance push_back add32
emptied rest =
    (move advance Ready
      (move advance Ready (move advance Ready (both_ready rest) 2 request_stop) 2 drain) 1
      (collect 1))

-- Whatever else is running, a call of notify_stop between the count of the last ready item and the
-- collection of the results completes both items and leaves the queues empty, and the run that
-- collects reads the front of an empty queue.
pub stop_empties_queues :
    (rest : List Pc)
    → (s : System Zip Pc) × Trace advance Ready (two_items rest) 9 s
      × (get_elem? s.runs 1 ≡ some faulted)
      × (get_elem? s.runs 2 ≡ some done)
      × (s.op.item_queues ≡ [] ∷ [] ∷ [])
      × (s.op.completed ≡ 1 ∷ 2 ∷ [])
      × (s.op.rows ≡ [])
unfolding advance push_back add32
stop_empties_queues rest = (
  emptied rest,
  (acts 8 _ 1 (collect 1)
      (acts 7 _ 2 drain
        (acts 6 _ 2 request_stop
          (acts 5 _ 1 (notify 1 2)
            (acts 4 _ 1 (enqueue 1 2)
              (acts 3 _ 1 (begin 1 2)
                (acts 2 _ 0 (notify 0 1)
                  (acts 1 _ 0 (enqueue 0 1) (acts 0 (two_items rest) 0 (begin 0 1) here refl tt)
                    refl tt)
                  refl tt)
                refl tt)
              refl tt)
            refl tt)
          refl tt)
        refl tt)
      refl tt),
  refl,
  refl,
  refl,
  refl,
  refl,
)
