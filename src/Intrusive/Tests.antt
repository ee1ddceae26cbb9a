-- ===== src/Intrusive/Tests.antt =====
-- Runs of the containers over a small heap, and of what is proved of them.
use senders_io.Prelude.{◌≡◌, refl, true, false, none, [], ◌∷◌, arith, ◌==◌, if◌then◌else◌}
use senders_io.Intrusive.{Ptr, Heap, Yields}
use senders_io.Intrusive.Chain.{has}
use senders_io.Intrusive.Queue.{queue, make_reversed}
use senders_io.Intrusive.Queue.Methods.{IsQueue}
use senders_io.Intrusive.Queue.Reversed.{make_reversed-IsQueue}
use senders_io.Intrusive.DoublyLinked.{list, list_push_front, erase}
use senders_io.Intrusive.DoublyLinked.Backed.{IsList}
use senders_io.Intrusive.DoublyLinked.Methods.{erase-IsList}
use senders_io.Intrusive.DoublyLinked.Faults.{push_front_faults}

-- the items 1, 2, 3 in a row, and the item 4 alone
abbrev heap : Heap
heap = record {
  next = λ p. if p == 1 then 2 else if p == 2 then 3 else 0;
  prev = λ p. if p == 2 then 1 else if p == 3 then 2 else 0;
}

row-IsQueue : IsQueue heap (queue 1 3) (1 ∷ 2 ∷ 3 ∷ [])
row-IsQueue = record {
  chain = (omega arith, refl, (omega arith, refl, (omega arith, refl, tt)));
  head = refl;
  tail = refl;
  distinct = (refl, (refl, (refl, tt)));
}

alone-IsQueue : IsQueue heap (queue 4 4) (4 ∷ [])
alone-IsQueue = record {
  chain = (omega arith, refl, tt);
  head = refl;
  tail = refl;
  distinct = (refl, tt);
}

row-IsList : IsList heap (list 1 3) (1 ∷ 2 ∷ 3 ∷ [])
row-IsList = record {
  chain = row-IsQueue.chain;
  back = (refl, (refl, (refl, tt)));
  head = refl;
  tail = refl;
  distinct = row-IsQueue.distinct;
}

alone-IsList : IsList heap (list 4 4) (4 ∷ [])
alone-IsList = record {
  chain = alone-IsQueue.chain;
  back = (refl, tt);
  head = refl;
  tail = refl;
  distinct = alone-IsQueue.distinct;
}

none-IsList : IsList heap (list 0 0) []
none-IsList = record { chain = tt; back = tt; head = refl; tail = refl; distinct = tt }

apart : (a : Ptr) → has a (1 ∷ 2 ∷ 3 ∷ []) ≡ true → has a (4 ∷ []) ≡ false
apart a h = ground (arith, h)

make_reversed-IsQueue_example :
    Yields (make_reversed 4 1) heap (λ r h'. IsQueue h' r (3 ∷ 2 ∷ 1 ∷ []))
make_reversed-IsQueue_example =
    make_reversed-IsQueue heap (1 ∷ 2 ∷ 3 ∷ []) 4 row-IsQueue.chain row-IsQueue.distinct
      (omega arith)

erase-IsList_example : Yields (erase (list 1 3) 2) heap (λ r h'. IsList h' r (1 ∷ 3 ∷ []))
erase-IsList_example = erase-IsList heap (list 1 3) 2 (1 ∷ []) (3 ∷ []) row-IsList

push_front_faults_example : list_push_front (list 0 0) 4 heap ≡ none
push_front_faults_example = push_front_faults heap (list 0 0) 4 (omega arith) none-IsList
