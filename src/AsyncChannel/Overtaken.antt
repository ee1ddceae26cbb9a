-- ===== src/AsyncChannel/Overtaken.antt =====
-- A stop request between the compare-exchange and the start of subscribe_operation_ in
-- subscribe_operation::start of source/sio/async_channel.hpp.
use senders_io.Prelude.{◌≡◌, refl, true, List, ◌∷◌}
use senders_io.Interleaving.{System, Trace, here, acts, move}
use senders_io.AsyncChannel.{
  Pc, compare, begin_subscribe, exchange, begin_unsubscribe, mutex, Subscription, set_value, grant,
  advance, Ready, Event, stop, init,
}

abbrev pub overtaken : List Event → System Subscription Pc
unfolding advance grant set_value
overtaken events =
    (move advance Ready
      (move advance Ready
        (move advance Ready
          (move advance Ready
            (move advance Ready (move advance Ready (init (stop ∷ events)) 0 compare) 3 exchange) 3
            begin_unsubscribe)
          1 mutex)
        0 begin_subscribe)
      1 mutex)

-- Whatever else happens, a stop request can lead to a state in which the receiver of the subscription
-- was completed, and the subscription with its observer may be gone, but the observer is in the list
-- of the channel.
pub unsubscribe_overtakes :
    (events : List Event)
    → (s : System Subscription Pc) × Trace advance Ready (init (stop ∷ events)) 6 s
      × (s.op.completions ≡ 1)
      × (s.op.observed ≡ true)
unfolding advance grant set_value
unsubscribe_overtakes events = (
  overtaken events,
  (acts 5 _ 1 mutex
      (acts 4 _ 0 begin_subscribe
        (acts 3 _ 1 mutex
          (acts 2 _ 3 begin_unsubscribe
            (acts 1 _ 3 exchange (acts 0 (init (stop ∷ events)) 0 compare here refl tt) refl tt)
            refl tt)
          refl tt)
        refl tt)
      refl tt),
  refl,
  refl,
)
