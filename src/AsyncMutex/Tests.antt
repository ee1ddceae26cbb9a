-- ===== src/AsyncMutex/Tests.antt =====
-- A schedule of two operations that contend for the mutex, over a queue that is a list.
use senders_io.Prelude.{sum, ◌+◌, ◌≤◌, ◌≡◌, refl, Bool, true, false, List, [], ◌∷◌, ◌==◌, length}
use senders_io.AsyncMutex.{
  Op, count, AtomicQueue, push_front, try_lock, pop_all, complete, unlock, check, returned, advance,
  System, init, start, calls, acts, Reach, begins, later,
}
use senders_io.AsyncMutex.Drain.{bit, drains, one_run_drains}
use senders_io.AsyncMutex.Once.{held, started_are_kept, all_completed}
use senders_io.AsyncMutex.Progress.{work, Acts, none_yet, one_more, schedules_end}

abbrev list_queue : AtomicQueue
list_queue = record {
  Carrier = List Op;
  fresh = [];
  push = λ a q. a ∷ q;
  pop_all = λ q. (q, []);
  is_empty = λ q. length q == 0;
  items = λ q. q;
  items-fresh = refl;
  items-push = λ a q. refl;
  items-pop_all = λ q. refl;
  count-pop_all = λ a q. refl;
  length-pop_all = λ q. refl;
  is_empty-items = λ q. refl;
}

-- the operations 7 and 8, 8 called last
abbrev called : System list_queue
called = start list_queue 8 (start list_queue 7 (init list_queue))

called-Reach : (may_delay : Bool) → Reach list_queue may_delay called
called-Reach b = later (later begins (calls 7)) (calls 8)

-- both push, the first to be called takes the lock, and the other finds it locked
abbrev contended : System list_queue
contended = record {
  mutex = record { locked = true; inflight_operations = 8 ∷ 7 ∷ []; completed = [] };
  runs = returned ∷ pop_all ∷ [];
  started = 8 ∷ 7 ∷ [];
}

contended-Reach : (may_delay : Bool) → Reach list_queue may_delay contended
unfolding advance
contended-Reach b =
    later
      (later
        (later (later (called-Reach b) (acts 1 (push_front 7) refl)) (acts 0 (push_front 8) refl))
        (acts 1 try_lock refl))
      (acts 0 try_lock refl)

one_run_drains_example : sum drains contended.runs ≡ bit contended.mutex.locked
one_run_drains_example = one_run_drains list_queue true contended (contended-Reach true)

started_are_kept_example :
    count 7 contended.started
    ≡ count 7 contended.mutex.completed
      + count 7 contended.mutex.inflight_operations
      + sum (held 7) contended.runs
started_are_kept_example = started_are_kept list_queue true 7 contended (contended-Reach true)

abbrev rested : System list_queue
rested = record {
  mutex = record { locked = false; inflight_operations = []; completed = 7 ∷ 8 ∷ [] };
  runs = returned ∷ returned ∷ [];
  started = 8 ∷ 7 ∷ [];
}

rested-Reach : (may_delay : Bool) → Reach list_queue may_delay rested
unfolding advance
rested-Reach b =
    later
      (later
        (later
          (later
            (later (later (contended-Reach b) (acts 1 pop_all refl))
              (acts 1 (complete 8 (7 ∷ [])) refl))
            (acts 1 (complete 7 []) refl))
          (acts 1 pop_all refl))
        (acts 1 unlock refl))
      (acts 1 check refl)

popped-Acts : Acts list_queue true contended 1 (record {
  mutex = record { locked = true; inflight_operations = []; completed = [] };
  runs = returned ∷ complete 8 (7 ∷ []) ∷ [];
  started = 8 ∷ 7 ∷ [];
})
unfolding advance
popped-Acts = one_more none_yet 1 pop_all refl refl

schedules_end_example :
    1
      + work list_queue (record {
        mutex = record { locked = true; inflight_operations = []; completed = [] };
        runs = returned ∷ complete 8 (7 ∷ []) ∷ [];
        started = 8 ∷ 7 ∷ [];
      })
    ≤ work list_queue contended
schedules_end_example =
    schedules_end list_queue true contended
      (record {
        mutex = record { locked = true; inflight_operations = []; completed = [] };
        runs = returned ∷ complete 8 (7 ∷ []) ∷ [];
        started = 8 ∷ 7 ∷ [];
      })
      1 popped-Acts

-- without a late store
completed_run : count 7 rested.mutex.completed ≡ count 7 rested.started
completed_run =
    let (_, _, same) = all_completed list_queue 7 rested (rested-Reach false) refl in same
