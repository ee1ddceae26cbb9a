-- ===== src/AsyncChannel.antt =====
-- source/sio/async_channel.hpp: one subscription to a channel, which ends by a stop request, by the
-- end of the channel or by an item that is stopped. Runs are those of Interleaving. What happens under
-- the mutex of the channel is a queue of requests, since async_mutex grants the lock in the order of
-- the queue; of the list of observers it holds whether this one is in it. An item that notify_all spawns
-- in the scope of the channel completes at any later time and without the mutex.
pub mod Once
pub mod Overtaken
pub mod Tests
use senders_io.Prelude.{
  ℕ, zero, suc, ◌+◌, Bool, true, false, List, [], ◌∷◌, ◌++◌, map, ◌==◌, if◌then◌else◌,
}
use senders_io.Interleaving.{System}

-- what waits for the mutex: subscribe, unsubscribe, close, and notify_all with an item that is stopped
pub data Request : Type 0 where
  subscribe : Request
  unsubscribe : Request
  close : Request
  notify_all : Request

-- What a run does next.
pub data Pc : Type 0 where
  -- subscribe_operation::start: the compare-exchange of n_ops_, and start of subscribe_operation_
  compare : Pc
  begin_subscribe : Pc
  -- on_stop_requested: the exchange of n_ops_, and start of stop_operation_
  exchange : Pc
  begin_unsubscribe : Pc
  -- a call of close or of notify_all
  ask : Request → Pc
  -- the mutex grants the next request
  mutex : Pc
  -- one of the items that were spawned in scope_ is stopped
  scope : Pc
  done : Pc

-- The members of subscribe_operation, whether its observer is in the channel, what waits for the mutex,
-- the stopped items that are in scope_, and how often the receiver was completed.
pub record Subscription : Type 0 where
  pub n_ops : ℕ
  pub observed : Bool
  pub requests : List Request
  pub spawned : ℕ
  pub completions : ℕ

abbrev pub complete : Subscription → Subscription
complete o = record o { completions = o.completions + 1 }

-- wrap_receiver::set_value
unfoldable pub set_value : Subscription → Subscription
set_value o = if o.n_ops == 1 then complete (record o { n_ops = 3 }) else record o { n_ops = 3 }

-- pop_front of the observer, if it is in the list, and set_value of its receiver
unfoldable pub remove : Subscription → Subscription
unfolding set_value
remove o = if o.observed then set_value (record o { observed = false }) else o

-- what is done under the lock; after unsubscribe stop_receiver::set_value completes the receiver
unfoldable pub grant : Request → Subscription → Subscription
unfolding set_value remove
grant subscribe o = record o { observed = true }
grant unsubscribe o = complete (set_value (record o { observed = false }))
grant close o = remove o
grant notify_all o = if o.observed then record o { spawned = o.spawned + 1 } else o

-- what upon_stopped does in notify_all: erase of the observer, which is not looked for in the list, and
-- set_value of its receiver
unfoldable pub item_stopped : ℕ → Subscription → Subscription
unfolding set_value
item_stopped zero o = o
item_stopped (suc n) o = set_value (record o { observed = false; spawned = n })

abbrev pub grant_next : List Request → Subscription → Subscription
grant_next [] o = o
grant_next (r ∷ rs) o = grant r (record o { requests = rs })

-- one atomic action of a run
unfoldable pub advance : Pc → Subscription → Pc × Subscription
unfolding grant item_stopped
advance compare o = if o.n_ops == 0 then (begin_subscribe, record o { n_ops = 1 }) else (done, o)
advance begin_subscribe o = (done, record o { requests = o.requests ++ (subscribe ∷ []) })
advance exchange o =
    if o.n_ops == 1
    then (begin_unsubscribe, record o { n_ops = 2 })
    else if o.n_ops == 0
    then (done, complete (record o { n_ops = 2 }))
    else (done, record o { n_ops = 2 })
advance begin_unsubscribe o = (done, record o { requests = o.requests ++ (unsubscribe ∷ []) })
advance (ask r) o = (done, record o { requests = o.requests ++ (r ∷ []) })
advance mutex o = (mutex, grant_next o.requests o)
advance scope o = (scope, item_stopped o.spawned o)
advance done o = (done, o)

abbrev pub Ready : Pc → List Pc → Type 0
Ready done runs = ⊥
Ready p runs = Unit

-- what else may happen: a stop request, or a call of close or notify_all
pub data Event : Type 0 where
  stop : Event
  closes : Event
  notifies : Event

abbrev pub run_of : Event → Pc
run_of stop = exchange
run_of closes = ask close
run_of notifies = ask notify_all

-- start of a subscription, and what happens besides
abbrev pub init : List Event → System Subscription Pc
init events = record {
  op = record { n_ops = 0; observed = false; requests = []; spawned = 0; completions = 0 };
  runs = compare ∷ mutex ∷ scope ∷ map run_of events;
}
