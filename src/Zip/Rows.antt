-- ===== src/Zip/Rows.antt =====
-- The items of the zipped sequence, when each run of source/sio/sequence/zip.hpp goes on alone from the
-- completion of its item to its end and nobody asks to stop.
use senders_io.Prelude.{
  All, sum, sum-set, ==-self, some-injective, ℕ, zero, suc, ◌+◌, ◌-◌, ◌^◌, ◌≤◌, ◌<◌, ◌≡◌, refl, sym,
  ap, subst, ◌∙◌, inl, inr, Bool, true, false, Option, some, List, [], ◌∷◌, ◌++◌, append-nil,
  append_assoc, arith, ◌==◌, if◌then◌else◌, ==_iff, Bool-cases, length, get_elem?, set, get_or,
  replicate, length-replicate, length-set, ◌>>=◌,
}
use senders_io.Zip.{Zip, fronts, pop_fronts, has_item, is_front, begin, add32, fresh, run_alone}
use senders_io.Zip.Queues.{
  add32_exact, has_item-le, get_or-of_get, fronts-some, length-pop_fronts, sum-has_item_lt,
  pop_fronts-of_get, empty-find, get-some, set-get,
}
use senders_io.Zip.Feed.{with_queues, waits, counts, makes_row}
use senders_io.Zip.Columns.{
  Queued, column, Zipped, has_item-snoc, gives, pushed-Queued, popped-Queued,
}

-- The items complete in the order of their numbers, from k on, each in the sequence of that index.
unfoldable pub run_all : ℕ → List ℕ → Zip → Option Zip
run_all k [] o = some o
run_all k (i ∷ indices) o = do o' ← run_alone 9 (begin i k) o; run_all (suc k) indices o'

-- the items of one sequence
abbrev pub items_of : ℕ → ℕ → List ℕ → List ℕ
items_of j k [] = []
items_of j k (i ∷ indices) =
    let rest = items_of j (suc k) indices in if i == j then k ∷ rest else rest

-- what the rows have of one sequence

module _ (n k i : ℕ) (o : Zip) (got : ℕ → List ℕ) (h : Zipped n k o got) (small : n < 2 ^ 31)
    (q : List ℕ) (at : get_elem? o.item_queues i ≡ some q) where
  -- what the run of one item comes to
  abbrev Goes : Type 0
  Goes = (o' : Zip) × (run_alone 9 (begin i k) o ≡ some o') × Zipped n (suc k) o' (gives got i k)

  abbrev queues : List (List ℕ)
  queues = set o.item_queues i (get_or o.item_queues i [] ++ (k ∷ []))

  put : queues ≡ set o.item_queues i (q ++ (k ∷ []))
  put = ap (λ r. set o.item_queues i (r ++ (k ∷ []))) (get_or-of_get o.item_queues i q at)

  slot : get_elem? queues i ≡ some (q ++ (k ∷ []))
  slot = ap (λ qs. get_elem? qs i) put ∙ set-get o.item_queues i q (q ++ (k ∷ [])) at

  front : is_front k (get_or queues i []) ≡ is_front k (q ++ (k ∷ []))
  front = ap (is_front k) (get_or-of_get queues i (q ++ (k ∷ [])) slot)

  queues-Queued : Queued (suc k) queues o.rows (gives got i k)
  queues-Queued =
      subst (λ qs. Queued (suc k) qs o.rows (gives got i k)) (sym put)
        (pushed-Queued k i o.item_queues o.rows got q at h.queued)

  queues_size : length queues ≡ n
  queues_size = length-set o.item_queues i (get_or o.item_queues i [] ++ (k ∷ [])) ∙ h.size

  sum-queues : sum has_item queues + has_item q ≡ sum has_item o.item_queues + 1
  sum-queues = omega (
    arith,
    ap (sum has_item) put,
    sum-set has_item o.item_queues i q (q ++ (k ∷ [])) at,
    has_item-snoc q k,
  )

  few : sum has_item o.item_queues < n
  few = omega (arith, h.size, sum-has_item_lt o.item_queues h.empty.0 h.empty.1)

  behind : 1 ≤ has_item q → is_front k (q ++ (k ∷ [])) ≡ false → Goes
  behind full no_front = (
    with_queues o queues o.n_ready_next_items o.rows,
    waits o i k h.running 5 (front ∙ no_front),
    record {
      size = queues_size;
      queued = queues-Queued;
      counted = omega (arith, h.counted, sum-queues, has_item-le q, full);
      empty = empty-find queues (omega (arith, few, queues_size, sum-queues, full));
      running = h.running;
    },
  )

  first_of :
      has_item q ≡ 0
      → is_front k (q ++ (k ∷ [])) ≡ true
      → (o.n_ready_next_items == length queues - 1) ≡ false
      → Goes
  first_of none_there is_front_ some_left = (
    with_queues o queues (add32 o.n_ready_next_items 1) o.rows,
    counts o i k h.running 5 (front ∙ is_front_) some_left,
    record {
      size = queues_size;
      queued = queues-Queued;
      counted = more ∙ omega (arith, h.counted, sum-queues, none_there);
      empty =
          empty-find queues
            (ground (arith, some_left, few, queues_size, sum-queues, none_there, h.counted));
      running = h.running;
    },
  )
    where
      more : add32 o.n_ready_next_items 1 ≡ o.n_ready_next_items + 1
      more = add32_exact o.n_ready_next_items (omega (arith, h.counted, few))

  row_of :
      has_item q ≡ 0
      → is_front k (q ++ (k ∷ [])) ≡ true
      → q ++ (k ∷ []) ≡ k ∷ []
      → (o.n_ready_next_items == length queues - 1) ≡ true
      → Goes
  row_of none_there is_front_ alone full = (
    with_queues o (pop_fronts queues) (sum has_item (pop_fronts queues)) (o.rows ++ (row ∷ [])),
    makes_row o i k h.running row there 0 (front ∙ is_front_) full (ground (arith, left)),
    record {
      size = length-pop_fronts queues ∙ queues_size;
      queued = popped-Queued (suc k) queues o.rows (gives got i k) row there queues-Queued;
      counted = refl;
      empty = (i, own_left);
      running = h.running;
    },
  )
    where
      all_there : sum has_item queues ≡ length queues
      all_there = ground (arith, full, h.counted, sum-queues, none_there, queues_size, few)

      row : List ℕ
      row = (fronts-some queues all_there).0

      there : fronts queues ≡ some row
      there = (fronts-some queues all_there).1

      own_left : get_elem? (pop_fronts queues) i ≡ some []
      own_left = pop_fronts-of_get queues i k [] (slot ∙ ap some alone)

      left : sum has_item (pop_fronts queues) < length (pop_fronts queues)
      left = sum-has_item_lt (pop_fronts queues) i own_left

one_item :
    (n k i : ℕ) (o : Zip) (got : ℕ → List ℕ) (h : Zipped n k o got) (small : n < 2 ^ 31)
    (q : List ℕ) (at : get_elem? o.item_queues i ≡ some q)
    → (o' : Zip) × (run_alone 9 (begin i k) o ≡ some o') × Zipped n (suc k) o' (gives got i k)
one_item n k i o got h small [] at =
    elim (Bool-cases (o.n_ready_next_items == length o.item_queues - 1)) [
      | inl full ↦
          row_of n k i o got h small [] at refl (==-self k) refl
            (rw (length-set o.item_queues i (get_or o.item_queues i [] ++ (k ∷ []))) full)
      | inr some_left ↦
          first_of n k i o got h small [] at refl (==-self k)
            (rw (length-set o.item_queues i (get_or o.item_queues i [] ++ (k ∷ []))) some_left)
    ]
one_item n k i o got h small (y ∷ q) at =
    behind n k i o got h small (y ∷ q) at (omega arith)
      (ground (arith, (h.queued.old i (y ∷ q) at).0))

zips_rest :
    (n k : ℕ) (indices : List ℕ) (o : Zip) (got : ℕ → List ℕ)
    → Zipped n k o got
    → n < 2 ^ 31
    → All (λ i. i < n) indices
    → (o' : Zip) × (run_all k indices o ≡ some o')
      × ((j : ℕ) (q : List ℕ)
          → get_elem? o'.item_queues j ≡ some q
          → column j o'.rows ++ q ≡ got j ++ items_of j k indices)
      × ((j : ℕ) × (get_elem? o'.item_queues j ≡ some []))
      × (o'.n_ready_next_items ≡ sum has_item o'.item_queues)
unfolding run_all
zips_rest n k [] o got h small within =
    (o, refl, (λ j q e. h.queued.columns j q e ∙ sym (append-nil (got j))), h.empty, h.counted)
zips_rest n k (i ∷ indices) o got h small within =
    let (q, at) = get-some o.item_queues i (omega (arith, h.size, within.0)) in
    let (o1, runs, h1) = one_item n k i o got h small q at in
    let (o', rest, cols, none_left, count) =
      zips_rest n (suc k) indices o1 (gives got i k) h1 small within.1 in
    (o', rw runs rest, (λ j p e. cols j p e ∙ shifts j (i == j) refl), none_left, count)
  where
    shifts :
        (j : ℕ) (b : Bool)
        → (i == j) ≡ b
        → (if b then got i ++ (k ∷ []) else got j) ++ items_of j (suc k) indices
          ≡ got j ++ (if b then k ∷ items_of j (suc k) indices else items_of j (suc k) indices)
    shifts j true same =
        ap (λ l. l ++ items_of j (suc k) indices)
          (ap (λ m. got m ++ (k ∷ [])) ((==_iff i j).0 same))
        ∙ append_assoc (got j) (k ∷ []) (items_of j (suc k) indices)
    shifts j false other = refl

fresh-Zipped : (n : ℕ) → 1 ≤ n → Zipped n 0 (fresh n) (λ j. [])
fresh-Zipped n some_sequence = record {
  size = length-replicate n [];
  queued = record {
    columns = λ j q e. nothing n j q e;
    old = λ j q e. subst (All (λ y. y < 0)) (sym (nothing n j q e)) tt;
  };
  counted = sym (none_ready n);
  empty = first n some_sequence;
  running = refl;
}
  where
    nothing : (m j : ℕ) (q : List ℕ) → get_elem? (replicate m []) j ≡ some q → q ≡ []
    nothing zero j q e = absurd (cc e)
    nothing (suc m) zero q e = sym (some-injective [] q e)
    nothing (suc m) (suc j) q e = nothing m j q e

    none_ready : (m : ℕ) → sum has_item (replicate m []) ≡ 0
    none_ready zero = refl
    none_ready (suc m) = omega (arith, none_ready m)

    first : (m : ℕ) → 1 ≤ m → (j : ℕ) × (get_elem? {A = List ℕ} (replicate m []) j ≡ some [])
    first zero le = absurd (omega arith)
    first (suc m) le = (0, refl)

-- Items complete one after the other, each in some sequence, and the run of each goes on alone to its
-- end. For n sequences (1 up to 2^31 - 1) nothing faults. For every sequence the items of the rows,
-- with those that wait, are the items that it has given, in their order; some sequence has no item
-- that waits, so that no row is held back; and n_ready_next_items_ is the number of the sequences with
-- items that wait.
pub zips_in_order :
    (n : ℕ) (indices : List ℕ)
    → 1 ≤ n
    → n < 2 ^ 31
    → All (λ i. i < n) indices
    → (o : Zip) × (run_all 0 indices (fresh n) ≡ some o)
      × ((j : ℕ) (q : List ℕ)
          → get_elem? o.item_queues j ≡ some q
          → column j o.rows ++ q ≡ items_of j 0 indices)
      × ((j : ℕ) × (get_elem? o.item_queues j ≡ some []))
      × (o.n_ready_next_items ≡ sum has_item o.item_queues)
zips_in_order n indices le small within =
    zips_rest n 0 indices (fresh n) (λ j. []) (fresh-Zipped n le) small within
