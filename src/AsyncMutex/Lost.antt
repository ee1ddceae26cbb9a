-- ===== src/AsyncMutex/Lost.antt =====
-- A wake-up that source/sio/async_mutex.hpp can lose: an operation is pushed after the queue was looked
-- at and found empty, and its run finds the mutex locked, since the store before that look is late.
use senders_io.Prelude.{◌≡◌, refl, ap, ◌∙◌, true, false, List, [], ◌∷◌, arith, length}
use senders_io.AsyncMutex.{Op, AtomicQueue, Pc, pop_all, Mutex, System, Reach}

one_op : (ops : List Op) → length ops ≡ 1 → (x : Op) × (ops ≡ x ∷ [])
one_op [] e = absurd (omega arith)
one_op (x ∷ []) e = (x, refl)
one_op (x ∷ y ∷ ops) e = absurd (omega arith)

module _ (queue : AtomicQueue) where
  abbrev state : Mutex queue → List Pc → List Op → System queue
  state m runs started = record { mutex = m; runs = runs; started = started }

  abbrev with_queue : Mutex queue → queue.Carrier → Mutex queue
  with_queue m q = record m { inflight_operations = q }

  -- a run pushes a, takes it, completes it and looks at the queue before its store is seen
  module _ (m : Mutex queue) (rs : List Pc) (started : List Op) (a : Op)
      (r : Reach queue true (state m rs started)) (free : m.locked ≡ false)
      (none_waits : queue.items m.inflight_operations ≡ []) where
    abbrev pushed : queue.Carrier
    pushed = queue.push a m.inflight_operations

    abbrev taken : queue.Carrier
    taken = (queue.pop_all pushed).1

    abbrev emptied : queue.Carrier
    emptied = (queue.pop_all taken).1

    op_taken : (x : Op) × ((queue.pop_all pushed).0 ≡ x ∷ [])
    op_taken = one_op (queue.pop_all pushed).0 (
        queue.length-pop_all pushed
        ∙ ap (λ l. length l)
            (queue.items-push a m.inflight_operations ∙ ap (λ l. a ∷ l) none_waits))

    abbrev drained : Mutex queue
    drained = record {
      locked = true;
      inflight_operations = emptied;
      completed = op_taken.0 ∷ m.completed;
    }

    -- then b is pushed, its run finds the mutex locked, and the store is seen
    abbrev missed : Op → Mutex queue
    missed b = record {
      locked = false;
      inflight_operations = queue.push b emptied;
      completed = op_taken.0 ∷ m.completed;
    }
