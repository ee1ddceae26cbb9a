-- ===== src/AsyncChannel/Tests.antt =====
-- Runs of a subscription, and of what is proved of it.
use senders_io.Prelude.{sum, ◌+◌, ◌≤◌, ◌≡◌, refl, true, [], ◌∷◌}
use senders_io.Interleaving.{System, Trace, here, acts, move}
use senders_io.AsyncChannel.{
  Pc, compare, begin_subscribe, mutex, ask, close, Subscription, set_value, remove, grant, advance,
  Ready, stop, closes, init,
}
use senders_io.AsyncChannel.Once.{is_unsubscribe, unsubscribes, subscription_ends_once}
use senders_io.AsyncChannel.Overtaken.{unsubscribe_overtakes}

-- the channel is closed
abbrev closed : System Subscription Pc
unfolding advance grant remove set_value
closed =
    (move advance Ready
      (move advance Ready
        (move advance Ready
          (move advance Ready (move advance Ready (init (closes ∷ [])) 0 compare) 0 begin_subscribe)
          1 mutex)
        3 (ask close))
      1 mutex)

closed_run : closed.op.completions ≡ 1
unfolding advance grant remove set_value
closed_run = refl

subscription_ends_once_example :
    (closed.op.completions ≤ 1)
    × (closed.op.n_ops ≤ 1 → closed.op.completions ≡ 0)
    × (2 ≤ closed.op.n_ops
        → sum is_unsubscribe closed.op.requests + sum unsubscribes closed.runs ≡ 0
        → closed.op.completions ≡ 1)
unfolding advance grant remove set_value
subscription_ends_once_example = subscription_ends_once (closes ∷ []) 5 closed (
    acts 4 _ 1 mutex
      (acts 3 _ 3 (ask close)
        (acts 2 _ 1 mutex
          (acts 1 _ 0 begin_subscribe (acts 0 (init (closes ∷ [])) 0 compare here refl tt) refl tt)
          refl tt)
        refl tt)
      refl tt)

unsubscribe_overtakes_example :
    (s : System Subscription Pc) × Trace advance Ready (init (stop ∷ closes ∷ [])) 6 s
    × (s.op.completions ≡ 1)
    × (s.op.observed ≡ true)
unsubscribe_overtakes_example = unsubscribe_overtakes (closes ∷ [])
