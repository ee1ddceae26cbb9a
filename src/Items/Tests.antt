-- ===== src/Items/Tests.antt =====
-- Runs of last, scan and reduce, and of what is proved of them.
use senders_io.Prelude.{ℕ, suc, ◌+◌, ◌≡◌, some, List, [], ◌∷◌, get_elem?, take}
use mathlib.Core.List.{foldl}
use senders_io.Items.Last.{Completion, is_value, run, last_item_wins}
use senders_io.Items.Last
use senders_io.Items.Scan.{Ended, values_of, complete_items, complete_items-foldl, set_value}
use senders_io.Items.Scan
use senders_io.Interleaving.{System, Trace}
use senders_io.Items.Reduce.{Reduction, Pc, done, Ready, advance, two_items, overtaken_item_is_lost}

abbrev three_items : List (Ended ℕ)
three_items = Scan.value 3 ∷ Scan.error 7 ∷ Scan.value 4 ∷ []

abbrev plus : ℕ → ℕ → ℕ
plus t a = t + a

complete_items-foldl_example :
    ((complete_items (λ t a. some (plus t a)) three_items 10).0
      ≡ foldl plus 10 (values_of three_items))
    × ((i : ℕ) (a : ℕ)
        → get_elem? three_items i ≡ some (Scan.value a)
        → get_elem? (complete_items (λ t b. some (plus t b)) three_items 10).1 i
          ≡ some (set_value (foldl plus 10 (values_of (take (suc i) three_items)))))
complete_items-foldl_example = complete_items-foldl plus three_items 10

overtaken_item_is_lost_example :
    (s : System Reduction Pc) × Trace
      (advance (λ t a. some (plus t a)) 0)
      Ready
      (two_items plus 0 10 3 4 [])
      4
      s
    × (get_elem? s.runs 0 ≡ some done)
    × (get_elem? s.runs 1 ≡ some done)
    × (s.op.value_ ≡ 17)
    × (s.op.kept.result ≡ some (Last.set_value 13))
overtaken_item_is_lost_example = overtaken_item_is_lost plus 0 10 3 4 []
