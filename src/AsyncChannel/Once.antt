-- ===== src/AsyncChannel/Once.antt =====
-- The receiver of a subscription of source/sio/async_channel.hpp is completed once.
use senders_io.Prelude.{
  sum-map_const, sum, sum-set, ℕ, zero, suc, ◌+◌, ◌≤◌, ◌≡◌, refl, ap, inl, inr, Bool, true, false,
  some, List, [], ◌∷◌, ◌++◌, arith, leb, ◌==◌, if◌then◌else◌, ==_iff, Bool-cases, get_elem?, set,
}
use senders_io.Interleaving.{System, Trace, Trace-keeps}
use senders_io.AsyncChannel.{
  Request, subscribe, unsubscribe, close, notify_all, Pc, compare, begin_subscribe, exchange,
  begin_unsubscribe, ask, mutex, scope, item_stopped, done, Subscription, complete, set_value,
  remove, grant, grant_next, advance, Ready, Event, stop, closes, notifies, run_of, init,
}

abbrev pub is_unsubscribe : Request → ℕ
is_unsubscribe unsubscribe = 1
is_unsubscribe r = 0

abbrev is_subscribe : Request → ℕ
is_subscribe subscribe = 1
is_subscribe r = 0

-- whether a run will ask for unsubscribe
abbrev pub unsubscribes : Pc → ℕ
unsubscribes begin_unsubscribe = 1
unsubscribes (ask r) = is_unsubscribe r
unsubscribes p = 0

abbrev subscribes : Pc → ℕ
subscribes begin_subscribe = 1
subscribes (ask r) = is_subscribe r
subscribes p = 0

abbrev pub bit : Bool → ℕ
bit b = if b then 1 else 0

-- the completions so far, those that an unsubscribe will make, and that of a subscription which no
-- event has ended
abbrev pub owed : Subscription → List Pc → ℕ
owed o runs =
    o.completions + sum is_unsubscribe o.requests + sum unsubscribes runs + bit (leb o.n_ops 1)

record Owes (o : Subscription) (runs : List Pc) : Type 0 where
  one : owed o runs ≡ 1
  begun :
      1 ≤ o.spawned + bit o.observed + sum is_subscribe o.requests + sum subscribes runs
      → 1 ≤ o.n_ops

sum-snoc :
    (w : Request → ℕ) (rs : List Request) (r : Request) → sum w (rs ++ (r ∷ [])) ≡ sum w rs + w r
sum-snoc w [] r = omega arith
sum-snoc w (x ∷ rs) r = omega (arith, sum-snoc w rs r)

-- set_value of a subscription that has begun
set_value-owed :
    (o : Subscription)
    → 1 ≤ o.n_ops
    → ((set_value o).completions + bit (leb (set_value o).n_ops 1)
        ≡ o.completions + bit (leb o.n_ops 1))
      × ((set_value o).requests ≡ o.requests)
      × ((set_value o).observed ≡ o.observed)
      × ((set_value o).n_ops ≡ 3)
unfolding set_value
set_value-owed o le = elim (Bool-cases (o.n_ops == 1)) [
  | inl e ↦ rw e (omega (arith, ap (λ n. bit (leb n 1)) ((==_iff o.n_ops 1).0 e)), refl, refl, refl)
  | inr ne ↦ rw ne (ground (arith, ne, le), refl, refl, refl)
]

module _ (o : Subscription) (runs : List Pc) (h : Owes o runs) (i : ℕ) where
  moves :
      (p q : Pc) (o' : Subscription)
      → get_elem? runs i ≡ some p
      → owed o' runs + unsubscribes q ≡ owed o runs + unsubscribes p
      → (1
            ≤ o'.spawned
              + bit o'.observed
              + sum is_subscribe o'.requests
              + sum subscribes (set runs i q)
          → 1 ≤ o'.n_ops)
      → Owes o' (set runs i q)
  moves p q o' at same later = record {
    one = omega (arith, h.one, same, sum-set unsubscribes runs i p q at);
    begun = later;
  }

  queues :
      (p : Pc) (r : Request)
      → get_elem? runs i ≡ some p
      → unsubscribes p ≡ is_unsubscribe r
      → subscribes p ≡ is_subscribe r
      → Owes (record o { requests = o.requests ++ (r ∷ []) }) (set runs i done)
  queues p r at u s =
      moves p done (record o { requests = o.requests ++ (r ∷ []) }) at
        (omega (arith, u, sum-snoc is_unsubscribe o.requests r))
        (λ le. h.begun (
          omega
            (arith, s, sum-snoc is_subscribe o.requests r, sum-set subscribes runs i p done at)))

  -- set_value, for an observer that is taken out
  takes_out :
      (rs : List Request) (extra : ℕ) (o' : Subscription)
      → sum is_unsubscribe o.requests ≡ extra + sum is_unsubscribe rs
      → sum is_subscribe rs ≤ sum is_subscribe o.requests
      → get_elem? runs i ≡ some mutex
      → 1 ≤ o.n_ops
      → o'.completions
        ≡ (set_value (record o { requests = rs; observed = false })).completions + extra
      → o'.requests ≡ rs
      → o'.n_ops ≡ 3
      → Owes o' (set runs i mutex)
  takes_out rs extra o' u s at le c q n =
      let (same, _, _, three) = set_value-owed (record o { requests = rs; observed = false }) le in
      moves mutex mutex o' at
        (omega (
          arith,
          same,
          three,
          u,
          c,
          n,
          ap (sum is_unsubscribe) q,
          ap (λ k. bit (leb k 1)) n,
          ap (λ k. bit (leb k 1)) three,
        ))
        (λ l. omega (arith, n))

  removes :
      (rs : List Request)
      → sum is_unsubscribe o.requests ≡ sum is_unsubscribe rs
      → sum is_subscribe rs ≤ sum is_subscribe o.requests
      → get_elem? runs i ≡ some mutex
      → Owes (remove (record o { requests = rs })) (set runs i mutex)
  unfolding remove
  removes rs u s at = by o.observed refl
    where
      seen_begun : o.observed ≡ true → 1 ≤ o.n_ops
      seen_begun seen = h.begun (omega (arith, ap bit seen))

      by :
          (b : Bool)
          → o.observed ≡ b
          → Owes
              (if b
                then set_value (record o { requests = rs; observed = false })
                else record o { requests = rs })
              (set runs i mutex)
      by true seen =
          let (_, q, _, n) =
            set_value-owed (record o { requests = rs; observed = false }) (seen_begun seen) in
          takes_out rs 0 (set_value (record o { requests = rs; observed = false }))
            (omega (arith, u)) s at (seen_begun seen) (omega arith) q n
      by false unseen =
          moves mutex mutex (record o { requests = rs }) at (omega (arith, u))
            (λ le. h.begun (omega (arith, s, le, sum-set subscribes runs i mutex mutex at)))

  spawns :
      (rs : List Request)
      → sum is_unsubscribe o.requests ≡ sum is_unsubscribe rs
      → sum is_subscribe rs ≤ sum is_subscribe o.requests
      → get_elem? runs i ≡ some mutex
      → Owes (grant notify_all (record o { requests = rs })) (set runs i mutex)
  unfolding grant
  spawns rs u s at = by o.observed refl
    where
      by :
          (b : Bool)
          → o.observed ≡ b
          → Owes
              (if b
                then record o { requests = rs; spawned = o.spawned + 1 }
                else record o { requests = rs })
              (set runs i mutex)
      by true seen =
          moves mutex mutex (record o { requests = rs; spawned = o.spawned + 1 }) at
            (omega (arith, u)) (λ le. h.begun (omega (arith, ap bit seen)))
      by false unseen =
          moves mutex mutex (record o { requests = rs }) at (omega (arith, u))
            (λ le. h.begun (omega (arith, s, le, sum-set subscribes runs i mutex mutex at)))

  grants :
      (rs : List Request)
      → o.requests ≡ rs
      → get_elem? runs i ≡ some mutex
      → Owes (grant_next rs o) (set runs i mutex)
  unfolding grant
  grants [] e at =
      moves mutex mutex o at refl
        (λ le. h.begun (omega (arith, sum-set subscribes runs i mutex mutex at)))
  grants (subscribe ∷ rs) e at =
      moves mutex mutex (record o { requests = rs; observed = true }) at
        (omega (arith, ap (sum is_unsubscribe) e))
        (λ le. h.begun (omega (arith, ap (sum is_subscribe) e)))
  grants (unsubscribe ∷ rs) e at =
      let later : 1 ≤ o.n_ops = ground (arith, h.one, ap (sum is_unsubscribe) e) in
      let (_, q, _, n) = set_value-owed (record o { requests = rs; observed = false }) later in
      takes_out rs 1 (complete (set_value (record o { requests = rs; observed = false })))
        (ap (sum is_unsubscribe) e) (omega (arith, ap (sum is_subscribe) e)) at later refl q n
  grants (close ∷ rs) e at =
      removes rs (omega (arith, ap (sum is_unsubscribe) e)) (omega (arith, ap (sum is_subscribe) e))
        at
  grants (notify_all ∷ rs) e at =
      spawns rs (omega (arith, ap (sum is_unsubscribe) e)) (omega (arith, ap (sum is_subscribe) e))
        at

  stops_item :
      (n : ℕ)
      → o.spawned ≡ n
      → get_elem? runs i ≡ some scope
      → Owes (item_stopped n o) (set runs i scope)
  unfolding item_stopped
  stops_item zero none_there at =
      moves scope scope o at refl
        (λ le. h.begun (omega (arith, sum-set subscribes runs i scope scope at)))
  stops_item (suc n) there at =
      let ended : Subscription = record o { observed = false; spawned = n } in
      let (same, q, _, three) = set_value-owed ended (h.begun (omega (arith, there))) in
      moves scope scope (set_value ended) at
        (omega (arith, same, ap (sum is_unsubscribe) q, ap (λ k. bit (leb k 1)) three))
        (λ l. omega (arith, three))

  act :
      (p : Pc)
      → get_elem? runs i ≡ some p
      → Ready p runs
      → Owes (advance p o).1 (set runs i (advance p o).0)
  unfolding advance
  act compare at ready = elim (Bool-cases (o.n_ops == 0)) [
    | inl z ↦ rw z (
        moves compare begin_subscribe (record o { n_ops = 1 }) at
          (omega (arith, ap (λ n. bit (leb n 1)) ((==_iff o.n_ops 0).0 z))) (λ le. omega arith))
    | inr nz ↦ rw nz (moves compare done o at refl (λ le. ground (arith, nz)))
  ]
  act begin_subscribe at ready = queues begin_subscribe subscribe at refl refl
  act exchange at ready = elim (Bool-cases (o.n_ops == 1)) [
    | inl one ↦ rw one (
        moves exchange begin_unsubscribe (record o { n_ops = 2 }) at
          (omega (arith, ap (λ n. bit (leb n 1)) ((==_iff o.n_ops 1).0 one))) (λ le. omega arith))
    | inr none_one ↦ rw none_one (elim (Bool-cases (o.n_ops == 0)) [
      | inl z ↦ rw z (
          moves exchange done (complete (record o { n_ops = 2 })) at
            (omega (arith, ap (λ n. bit (leb n 1)) ((==_iff o.n_ops 0).0 z))) (λ le. omega arith))
      | inr nz ↦ rw nz (
          moves exchange done (record o { n_ops = 2 }) at (ground (arith, nz, none_one))
            (λ le. omega arith))
    ])
  ]
  act begin_unsubscribe at ready = queues begin_unsubscribe unsubscribe at refl refl
  act (ask r) at ready = queues (ask r) r at refl refl
  act mutex at ready = grants o.requests refl at
  act scope at ready = stops_item o.spawned refl at
  act done at ready = absurd ready

init-Owes : (events : List Event) → Owes (init events).op (init events).runs
init-Owes events = record {
  one = omega (arith, sum-map_const unsubscribes run_of 0 events no_unsubscribe);
  begun = λ le. absurd (omega (arith, sum-map_const subscribes run_of 0 events no_subscribe));
}
  where
    no_unsubscribe : (e : Event) → unsubscribes (run_of e) ≡ 0
    no_unsubscribe stop = refl
    no_unsubscribe closes = refl
    no_unsubscribe notifies = refl

    no_subscribe : (e : Event) → subscribes (run_of e) ≡ 0
    no_subscribe stop = refl
    no_subscribe closes = refl
    no_subscribe notifies = refl

-- Whatever stop requests, calls of close and stopped items there are, and in whatever order: the
-- receiver of a subscription is completed at most once; it was not completed while no event has ended
-- the subscription (n_ops_ is 0 or 1), and it was, when one has ended it and no unsubscribe is under
-- way.
pub subscription_ends_once :
    (events : List Event) (n : ℕ) (s : System Subscription Pc)
    → Trace advance Ready (init events) n s
    → (s.op.completions ≤ 1)
      × (s.op.n_ops ≤ 1 → s.op.completions ≡ 0)
      × (2 ≤ s.op.n_ops
          → sum is_unsubscribe s.op.requests + sum unsubscribes s.runs ≡ 0
          → s.op.completions ≡ 1)
subscription_ends_once events n s path = (
  omega (arith, one),
  (λ le. ground (arith, one, le)),
  (λ le none_left. ground (arith, one, le, none_left)),
)
  where
    one : owed s.op s.runs ≡ 1
    one =
        (Trace-keeps advance Ready (λ t. Owes t.op t.runs)
          (λ t i p h at ready. act t.op t.runs h i p at ready) (init-Owes events) path).one
