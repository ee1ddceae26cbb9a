-- ===== src/Zip/Single.antt =====
-- zip (source/sio/sequence/zip.hpp) of sequences with one item each, as use_resources of
-- source/sio/async_resource.hpp has them, when nobody asks to stop.
use senders_io.Prelude.{
  sum, sum-set, sum-part, ==-self, ℕ, ◌+◌, ◌-◌, ◌^◌, ◌<◌, ◌≡◌, refl, sym, ap, subst, ◌∙◌, inl, inr,
  Bool, true, false, Bool-cases, some, List, [], ◌∷◌, ◌++◌, arith, ◌==◌, if◌then◌else◌, length,
  get_elem?, set,
}
use senders_io.Interleaving.{System, move}
use senders_io.Zip.{
  Zip, Pc, begin, enqueue, notify, collect, done, push_back, advance, add32, Ready,
}
use senders_io.Zip.Queues.{add32_exact, get_or-of_get, set-get, set-same}
use senders_io.Zip.Slots.{
  Slot, begins, enqueues, notifies, is_done, Slots, notifying, alive, Slots-set, Slots-sum,
  Slots-size, Slots-full,
}
use senders_io.Zip.Stages.{Gathers, Gathered}

-- the run that makes the row

module _ (xs : List ℕ) (small : length xs < 2 ^ 31) (s : System Zip Pc) (i x : ℕ) (h : Gathers xs s)
    (of : get_elem? xs i ≡ some x) where
  moved :
      (p q : Pc) (o : Zip)
      → advance p s.op ≡ (q, o)
      → Gathered xs (record { op = o; runs = set s.runs i q })
      → Gathered xs (move advance Ready s i p)
  moved p q o e g =
      subst (λ (a : Pc × Zip). Gathered xs (record { op = a.1; runs = set s.runs i a.0 })) (sym e) g

  same_queue :
      (p : Pc) (q : List ℕ)
      → get_elem? s.op.item_queues i ≡ some q
      → Slot i x p q
      → Slots 0 xs (set s.runs i p) s.op.item_queues
  same_queue p q there slot =
      subst (Slots 0 xs (set s.runs i p)) (set-same s.op.item_queues i q there) (
        Slots-set 0 xs s.runs s.op.item_queues i x p q h.slots of
          (subst (λ m. Slot m x p q) (omega arith) slot))

  after_begin :
      get_elem? s.runs i ≡ some (begin i x)
      → get_elem? s.op.item_queues i ≡ some []
      → Gathered xs (move advance Ready s i (begin i x))
  unfolding advance
  after_begin at there = moved (begin i x) (enqueue i x) s.op (rw h.running refl) (
      inl (record {
        slots = same_queue (enqueue i x) [] there enqueues;
        counted = omega (arith, h.counted, sum-set alive s.runs i (begin i x) (enqueue i x) at);
        left = omega (arith, h.left, sum-set alive s.runs i (begin i x) (enqueue i x) at);
        rows = h.rows;
        running = h.running;
      }))

  after_enqueue :
      get_elem? s.runs i ≡ some (enqueue i x)
      → get_elem? s.op.item_queues i ≡ some []
      → Gathered xs (move advance Ready s i (enqueue i x))
  unfolding advance push_back
  after_enqueue at there = moved (enqueue i x) (notify i x) (push_back i x s.op) refl (
      inl (record {
        slots =
            subst
              (λ q. Slots 0 xs (set s.runs i (notify i x)) (set s.op.item_queues i (q ++ (x ∷ []))))
              (sym (get_or-of_get s.op.item_queues i [] there))
              (Slots-set 0 xs s.runs s.op.item_queues i x (notify i x) (x ∷ []) h.slots of
                (subst (λ m. Slot m x (notify i x) (x ∷ [])) (omega arith) notifies));
        counted = omega (arith, h.counted, sum-set alive s.runs i (enqueue i x) (notify i x) at);
        left = omega (arith, h.left, sum-set alive s.runs i (enqueue i x) (notify i x) at);
        rows = h.rows;
        running = h.running;
      }))

  module _ (at : get_elem? s.runs i ≡ some (notify i x))
      (there : get_elem? s.op.item_queues i ≡ some (x ∷ [])) where
    counted_one : Zip
    counted_one = record s.op { n_ready_next_items = add32 s.op.n_ready_next_items 1 }

    notify_to :
        (b : Bool)
        → (s.op.n_ready_next_items == length s.op.item_queues - 1) ≡ b
        → advance (notify i x) s.op ≡ (
          if b then collect i else done,
          record s.op { n_ready_next_items = add32 s.op.n_ready_next_items 1 },
        )
    unfolding advance
    notify_to b e = rw (get_or-of_get s.op.item_queues i (x ∷ []) there, ==-self x, e) refl

    size : length s.op.item_queues ≡ length xs
    size = Slots-size 0 xs s.runs s.op.item_queues h.slots

    after_last :
        (s.op.n_ready_next_items == length s.op.item_queues - 1) ≡ true
        → Gathered xs (move advance Ready s i (notify i x))
    after_last last = moved (notify i x) (collect i) _ (notify_to true last) (
        inr (record {
          index = i;
          run = collect i;
          at = set-get s.runs i (notify i x) (collect i) at;
          alone = omega (arith, sum-set alive s.runs i (notify i x) (collect i) at, one);
          stage = (
            Slots-full 0 xs s.runs s.op.item_queues h.slots (
                omega (
                  arith,
                  one,
                  Slots-sum 0 xs s.runs s.op.item_queues h.slots,
                  sum-part notifying s.runs i (notify i x) at,
                )),
            h.rows,
          );
          running = h.running;
        }))
      where
        one : sum alive s.runs ≡ 1
        one = ground (arith, last, size, h.counted, h.left)

    after_other :
        (s.op.n_ready_next_items == length s.op.item_queues - 1) ≡ false
        → Gathered xs (move advance Ready s i (notify i x))
    after_other other = moved (notify i x) done _ (notify_to false other) (
        inl (record {
          slots = same_queue done (x ∷ []) there is_done;
          counted = more ∙ omega (arith, sum-set alive s.runs i (notify i x) done at, h.counted);
          left =
              ground (
                arith,
                other,
                size,
                h.counted,
                h.left,
                sum-set alive s.runs i (notify i x) done at,
              );
          rows = h.rows;
          running = h.running;
        }))
      where
        exact : add32 s.op.n_ready_next_items 1 ≡ s.op.n_ready_next_items + 1
        exact = add32_exact s.op.n_ready_next_items (omega (arith, h.counted, small))

        more :
            add32 s.op.n_ready_next_items 1 + sum alive (set s.runs i done)
            ≡ s.op.n_ready_next_items + 1 + sum alive (set s.runs i done)
        more = ap (λ n. n + sum alive (set s.runs i done)) exact

  pub gather_slot :
      (p : Pc) (q : List ℕ)
      → get_elem? s.runs i ≡ some p
      → get_elem? s.op.item_queues i ≡ some q
      → Slot i x p q
      → Ready p s.runs
      → Gathered xs (move advance Ready s i p)
  gather_slot p q at there begins ready = after_begin at there
  gather_slot p q at there enqueues ready = after_enqueue at there
  gather_slot p q at there notifies ready =
      elim (Bool-cases (s.op.n_ready_next_items == length s.op.item_queues - 1)) [
        | inl last ↦ after_last at there last
        | inr other ↦ after_other at there other
      ]
  gather_slot p q at there is_done ready = absurd ready
