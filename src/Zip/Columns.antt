-- ===== src/Zip/Columns.antt =====
-- The rows of source/sio/sequence/zip.hpp by sequence, with the items that wait.
use senders_io.Prelude.{
  All, sum, assign, some-injective, ℕ, suc, ◌<◌, ◌≡◌, refl, sym, ap, subst, ◌∙◌, ◌≢◌, inl, inr,
  false, some, List, [], ◌∷◌, ◌++◌, map, append_assoc, arith, ◌==◌, ==_iff, Bool-cases, length,
  get_elem?, set, get_or, get_elem?-set_ne,
}
use senders_io.Zip.{Zip, fronts, pop_fronts, has_item}
use senders_io.Zip.Queues.{pop_fronts-get, set-get}

abbrev pub column : ℕ → List (List ℕ) → List ℕ
column j rows = map (λ row. get_or row j 0) rows

-- the queues, where the sequences have given the items got
pub record Queued (k : ℕ) (qs rows : List (List ℕ)) (got : ℕ → List ℕ) : Type 0 where
  pub columns : (j : ℕ) (q : List ℕ) → get_elem? qs j ≡ some q → column j rows ++ q ≡ got j
  pub old : (j : ℕ) (q : List ℕ) → get_elem? qs j ≡ some q → All (λ y. y < k) q

pub record Zipped (n k : ℕ) (o : Zip) (got : ℕ → List ℕ) : Type 0 where
  pub size : length o.item_queues ≡ n
  pub queued : Queued k o.item_queues o.rows got
  pub counted : o.n_ready_next_items ≡ sum has_item o.item_queues
  pub empty : (j : ℕ) × (get_elem? o.item_queues j ≡ some [])
  pub running : o.stop_requested ≡ false

pub All-lt_suc : (k : ℕ) (q : List ℕ) → All (λ y. y < k) q → All (λ y. y < suc k) q
All-lt_suc k [] h = tt
All-lt_suc k (y ∷ q) h = (omega arith, All-lt_suc k q h.1)

pub All-snoc : (k : ℕ) (q : List ℕ) → All (λ y. y < k) q → All (λ y. y < suc k) (q ++ (k ∷ []))
All-snoc k [] h = (omega arith, tt)
All-snoc k (y ∷ q) h = (omega arith, All-snoc k q h.1)

pub column-snoc :
    (j : ℕ) (rows : List (List ℕ)) (row q : List ℕ)
    → column j (rows ++ (row ∷ [])) ++ q ≡ column j rows ++ (get_or row j 0 ∷ q)
column-snoc j [] row q = refl
column-snoc j (r ∷ rows) row q = ap (λ l. get_or r j 0 ∷ l) (column-snoc j rows row q)

pub has_item-snoc : (q : List ℕ) (x : ℕ) → has_item (q ++ (x ∷ [])) ≡ 1
has_item-snoc [] x = refl
has_item-snoc (y ∷ q) x = refl

abbrev pub gives : (ℕ → List ℕ) → ℕ → ℕ → ℕ → List ℕ
gives got i k = assign got i (got i ++ (k ∷ []))

-- an item is put behind those of its queue
pub pushed-Queued :
    (k i : ℕ) (qs rows : List (List ℕ)) (got : ℕ → List ℕ) (q : List ℕ)
    → get_elem? qs i ≡ some q
    → Queued k qs rows got
    → Queued (suc k) (set qs i (q ++ (k ∷ []))) rows (gives got i k)
pushed-Queued k i qs rows got q at h = record {
  columns = λ j p e. elim (Bool-cases (i == j)) [
    | inl same ↦ rw same (own j p ((==_iff i j).0 same) e)
    | inr other ↦
        rw other (h.columns j p (sym (get_elem?-set_ne qs (q ++ (k ∷ [])) (differ j other)) ∙ e))
  ];
  old = λ j p e. elim (Bool-cases (i == j)) [
    | inl same ↦
        subst (λ l. All (λ y. y < suc k) l) (sym (own_queue j p ((==_iff i j).0 same) e))
          (All-snoc k q (h.old i q at))
    | inr other ↦
        All-lt_suc k p (h.old j p (sym (get_elem?-set_ne qs (q ++ (k ∷ [])) (differ j other)) ∙ e))
  ];
}
  where
    differ : (j : ℕ) → (i == j) ≡ false → i ≢ j
    differ j other same = absurd (cc ((==_iff i j).1 same, other))

    own_queue :
        (j : ℕ) (p : List ℕ)
        → i ≡ j
        → get_elem? (set qs i (q ++ (k ∷ []))) j ≡ some p
        → p ≡ q ++ (k ∷ [])
    own_queue j p same e = sym (
        some-injective (q ++ (k ∷ [])) p (
          sym (set-get qs i q (q ++ (k ∷ [])) at)
          ∙ subst (λ l. get_elem? (set qs i (q ++ (k ∷ []))) l ≡ some p) (sym same) e))

    own :
        (j : ℕ) (p : List ℕ)
        → i ≡ j
        → get_elem? (set qs i (q ++ (k ∷ []))) j ≡ some p
        → column j rows ++ p ≡ got i ++ (k ∷ [])
    own j p same e =
        rw (own_queue j p same e, ← same)
          (sym (append_assoc (column i rows) q (k ∷ []))
            ∙ ap (λ l. l ++ (k ∷ [])) (h.columns i q at))

-- the first items are taken
pub popped-Queued :
    (k : ℕ) (qs rows : List (List ℕ)) (got : ℕ → List ℕ) (row : List ℕ)
    → fronts qs ≡ some row
    → Queued k qs rows got
    → Queued k (pop_fronts qs) (rows ++ (row ∷ [])) got
popped-Queued k qs rows got row f h = record {
  columns = λ j q e.
      column-snoc j rows row q ∙ h.columns j (get_or row j 0 ∷ q) (pop_fronts-get qs row j q f e);
  old = λ j q e. (h.old j (get_or row j 0 ∷ q) (pop_fronts-get qs row j q f e)).1;
}
