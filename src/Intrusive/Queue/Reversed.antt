-- ===== src/Intrusive/Queue/Reversed.antt =====
-- make_reversed of intrusive_queue turns a chain of items round.
use mathlib.Core.List.{reverse_aux}
use senders_io.Prelude.{
  ℕ, zero, suc, ◌<◌, ◌≡◌, refl, sym, true, false, List, [], ◌∷◌, reverse, arith, length,
}
use senders_io.Intrusive.{Ptr, null, Heap, write_next, Yields, ◌>>=◌}
use senders_io.Intrusive.Steps.{not_null, set_next_ok, get_next_ok}
use senders_io.Intrusive.Chain.{has, Distinct, last_or, head_or, Linked, Linked-write, ne_of_has}
use senders_io.Intrusive.Queue.{queue, reverse_loop, make_reversed}
use senders_io.Intrusive.Queue.Methods.{IsQueue}

-- xs, still to be turned round, and ys, turned round already
record Halfway (h : Heap) (xs ys : List Ptr) : Type 0 where
  todo : Linked h xs null
  done : Linked h ys null
  todo_distinct : Distinct xs
  done_distinct : Distinct ys
  apart : (a : Ptr) → has a xs ≡ true → has a ys ≡ false

Halfway-step :
    (h : Heap) (x : Ptr) (xs ys : List Ptr)
    → Halfway h (x ∷ xs) ys
    → Halfway (write_next h x (head_or null ys)) xs (x ∷ ys)
Halfway-step h x xs ys v = record {
  todo = Linked-write h xs null x (head_or null ys) v.todo_distinct.0 v.todo.2;
  done = (v.todo.0, ground arith, Linked-write h ys null x (head_or null ys) out v.done);
  todo_distinct = v.todo_distinct.1;
  done_distinct = (out, v.done_distinct);
  apart = λ a i. rw (ne_of_has a x xs i v.todo_distinct.0) (v.apart a (ground arith));
}
  where
    out : has x ys ≡ false
    out = v.apart x (ground arith)

abbrev Turned : List Ptr → Ptr → Heap → Type 0
Turned zs p h = (p ≡ head_or null zs) × Linked h zs null × Distinct zs

reverse_loop-Turned :
    (fuel : ℕ) (h : Heap) (xs ys : List Ptr)
    → Halfway h xs ys
    → length xs < fuel
    → Yields (reverse_loop fuel (head_or null ys) (head_or null xs)) h (Turned (reverse_aux xs ys))
unfolding reverse_loop
reverse_loop-Turned zero h xs ys v enough = absurd (omega arith)
reverse_loop-Turned (suc k) h [] ys v enough =
    (head_or null ys, h, refl, (refl, v.done, v.done_distinct))
reverse_loop-Turned (suc k) h (x ∷ xs) ys v enough =
    let (p, h', e, t) =
      reverse_loop-Turned k (write_next h x (head_or null ys)) xs (x ∷ ys)
        (Halfway-step h x xs ys v) (omega arith) in
    (
      p,
      h',
      rw
          (
            not_null x h v.todo.0,
            get_next_ok x h v.todo.0,
            ◌>>=◌,
            set_next_ok x h v.todo.0 (head_or null ys),
            v.todo.1,
          )
          e,
      t,
    )

last_or-reverse_aux :
    (d : Ptr) (xs : List Ptr) (y : Ptr) (ys : List Ptr)
    → last_or d (reverse_aux xs (y ∷ ys)) ≡ last_or y ys
last_or-reverse_aux d [] y ys = refl
last_or-reverse_aux d (x ∷ xs) y ys = last_or-reverse_aux d xs x (y ∷ ys)

last_or-reverse : (xs : List Ptr) → last_or null (reverse xs) ≡ head_or null xs
last_or-reverse [] = refl
last_or-reverse (x ∷ xs) = last_or-reverse_aux null xs x []

-- `make_reversed` of a chain of distinct items that ends in `nullptr`, given more rounds than there
-- are items, is the queue of the same items in reverse order.
pub make_reversed-IsQueue :
    (h : Heap) (xs : List Ptr) (fuel : ℕ)
    → Linked h xs null
    → Distinct xs
    → length xs < fuel
    → Yields (make_reversed fuel (head_or null xs)) h (λ r h'. IsQueue h' r (reverse xs))
unfolding make_reversed
make_reversed-IsQueue h xs fuel l d enough =
    let (p, h', e, t) = reverse_loop-Turned fuel h xs [] start enough in
    (
      queue p (head_or null xs),
      h',
      rw (e, ◌>>=◌),
      record { chain = t.1; head = t.0; tail = sym (last_or-reverse xs); distinct = t.2 },
    )
  where
    start : Halfway h xs []
    start = record {
      todo = l;
      done = tt;
      todo_distinct = d;
      done_distinct = tt;
      apart = λ a i. refl;
    }
