-- ===== src/Zip/Feed.antt =====
-- What a run of source/sio/sequence/zip.hpp does alone, from the completion of its item on, when nobody
-- asks to stop.
use senders_io.Prelude.{
  sum, ℕ, suc, ◌-◌, ◌^◌, ◌≡◌, refl, ap, ◌∙◌, true, false, some, List, [], ◌∷◌, ◌++◌, ◌==◌,
  if◌then◌else◌, length, set, get_or,
}
use senders_io.Zip.{
  Zip, fronts, pop_fronts, has_item, is_front, push_back, Pc, begin, enqueue, notify, collect, pop,
  check, count, start, done, faulted, advance, add32, run_alone,
}

-- the state with the queues qs, the counter n and the rows
abbrev pub with_queues : Zip → List (List ℕ) → ℕ → List (List ℕ) → Zip
with_queues o qs n rows = record o { item_queues = qs; n_ready_next_items = n; rows = rows }

-- a run that has not ended
abbrev pub Ongoing : Pc → Type 0
Ongoing done = ⊥
Ongoing faulted = ⊥
Ongoing p = Unit {0}

step :
    (f : ℕ) (p : Pc) (o : Zip) (q : Pc) (o' : Zip)
    → Ongoing p
    → advance p o ≡ (q, o')
    → run_alone (suc f) p o ≡ run_alone f q o'
unfolding run_alone
step f done o q o' going e = absurd going
step f faulted o q o' going e = absurd going
step f p o q o' going e = ap (λ (s : Pc × Zip). run_alone f s.0 s.1) e

ends : (f : ℕ) (o : Zip) → run_alone (suc f) done o ≡ some o
unfolding run_alone
ends f o = refl

module _ (o : Zip) (i x : ℕ) (running : o.stop_requested ≡ false) where
  abbrev queues : List (List ℕ)
  queues = set o.item_queues i (get_or o.item_queues i [] ++ (x ∷ []))

  begun : advance (begin i x) o ≡ (enqueue i x, o)
  unfolding advance
  begun = rw running refl

  enqueued : advance (enqueue i x) o ≡ (notify i x, push_back i x o)
  unfolding advance
  enqueued = refl

  seen_behind :
      is_front x (get_or queues i []) ≡ false
      → advance (notify i x) (push_back i x o) ≡ (done, push_back i x o)
  unfolding advance
  seen_behind behind = rw behind refl

  seen_first :
      (p : Pc)
      → is_front x (get_or queues i []) ≡ true
      → (if o.n_ready_next_items == length queues - 1 then collect i else done) ≡ p
      → advance (notify i x) (push_back i x o)
        ≡ (p, with_queues o queues (add32 o.n_ready_next_items 1) o.rows)
  unfolding advance
  seen_first p first e =
      rw first (ap (λ k. (k, with_queues o queues (add32 o.n_ready_next_items 1) o.rows)) e)

  -- an item behind another waits
  pub waits :
      (f : ℕ)
      → is_front x (get_or queues i []) ≡ false
      → run_alone (suc (suc (suc (suc f)))) (begin i x) o
        ≡ some (with_queues o queues o.n_ready_next_items o.rows)
  unfolding push_back
  waits f behind =
      step (suc (suc (suc f))) (begin i x) o (enqueue i x) o tt begun
      ∙ step (suc (suc f)) (enqueue i x) o (notify i x) (push_back i x o) tt enqueued
      ∙ step (suc f) (notify i x) (push_back i x o) done (push_back i x o) tt (seen_behind behind)
      ∙ ends f (push_back i x o)

  -- the first item of its queue is counted
  pub counts :
      (f : ℕ)
      → is_front x (get_or queues i []) ≡ true
      → (o.n_ready_next_items == length queues - 1) ≡ false
      → run_alone (suc (suc (suc (suc f)))) (begin i x) o
        ≡ some (with_queues o queues (add32 o.n_ready_next_items 1) o.rows)
  counts f first few =
      step (suc (suc (suc f))) (begin i x) o (enqueue i x) o tt begun
      ∙ step (suc (suc f)) (enqueue i x) o (notify i x) (push_back i x o) tt enqueued
      ∙ step (suc f) (notify i x) (push_back i x o) done
          (with_queues o queues (add32 o.n_ready_next_items 1) o.rows) tt
          (seen_first done first (rw few refl))
      ∙ ends f _

  module _ (row : List ℕ) (there : fronts queues ≡ some row) where
    abbrev counted : Zip
    counted = with_queues o queues (add32 o.n_ready_next_items 1) o.rows

    abbrev left : ℕ → Zip
    left n = with_queues o (pop_fronts queues) n o.rows

    collects : advance (collect i) counted ≡ (pop i row, counted)
    unfolding advance
    collects = rw there refl

    pops : advance (pop i row) counted ≡ (check i row row, left (2 ^ 32 - 1))
    unfolding advance
    pops = rw there refl

    checks : advance (check i row row) (left (2 ^ 32 - 1)) ≡ (count i row, left (2 ^ 32 - 1))
    unfolding advance
    checks = rw running refl

    recounts :
        (sum has_item (pop_fronts queues) == length (pop_fronts queues)) ≡ false
        → advance (count i row) (left (2 ^ 32 - 1))
          ≡ (start i row false, left (sum has_item (pop_fronts queues)))
    unfolding advance
    recounts few = rw few refl

    starts :
        (n : ℕ)
        → advance (start i row false) (left n)
          ≡ (done, with_queues o (pop_fronts queues) n (o.rows ++ (row ∷ [])))
    unfolding advance
    starts n = refl

    -- the last of the first items makes a row of them
    pub makes_row :
        (f : ℕ)
        → is_front x (get_or queues i []) ≡ true
        → (o.n_ready_next_items == length queues - 1) ≡ true
        → (sum has_item (pop_fronts queues) == length (pop_fronts queues)) ≡ false
        → run_alone (suc (suc (suc (suc (suc (suc (suc (suc (suc f))))))))) (begin i x) o
          ≡ some (
              with_queues o
                (pop_fronts queues)
                (sum has_item (pop_fronts queues))
                (o.rows ++ (row ∷ [])))
    makes_row f first full few =
        step (suc (suc (suc (suc (suc (suc (suc (suc f)))))))) (begin i x) o (enqueue i x) o tt
          begun
        ∙ step (suc (suc (suc (suc (suc (suc (suc f))))))) (enqueue i x) o (notify i x)
            (push_back i x o) tt enqueued
        ∙ step (suc (suc (suc (suc (suc (suc f)))))) (notify i x) (push_back i x o) (collect i)
            counted tt (seen_first (collect i) first (rw full refl))
        ∙ step (suc (suc (suc (suc (suc f))))) (collect i) counted (pop i row) counted tt collects
        ∙ step (suc (suc (suc (suc f)))) (pop i row) counted (check i row row) (left (2 ^ 32 - 1))
            tt pops
        ∙ step (suc (suc (suc f))) (check i row row) (left (2 ^ 32 - 1)) (count i row)
            (left (2 ^ 32 - 1)) tt checks
        ∙ step (suc (suc f)) (count i row) (left (2 ^ 32 - 1)) (start i row false)
            (left (sum has_item (pop_fronts queues))) tt (recounts few)
        ∙ step (suc f) (start i row false) (left (sum has_item (pop_fronts queues))) done
            (with_queues o (pop_fronts queues) (sum has_item (pop_fronts queues))
              (o.rows ++ (row ∷ [])))
            tt (starts (sum has_item (pop_fronts queues)))
        ∙ ends f _
