-- ===== src/MemoryPool/Valid/Allocate.antt =====
-- `start` of an allocation on each of its branches.
use senders_io.Prelude.{
  assign-all, assign-both, assign, ==-self, ℕ, ◌+◌, ◌≡◌, refl, sym, subst, ◌≢◌, ◌⊎◌, inl, inr, Bool,
  true, false, none, some, List, [], ◌∷◌, ◌++◌, arith, ltb, ◌==◌, ==_iff, Bool-cases,
}
use senders_io.Intrusive.Chain.{has, Distinct}
use senders_io.MemoryPool.{
  Ptr, null, MemoryResource, set_value, block_size, resource_allocate, Pool, header, header_size,
  take_block, ask_upstream, start_allocate,
}
use senders_io.MemoryPool.Valid.{FreeList, IsValid, FreeList-write, has-class}

module _ {res : MemoryResource} (pool : Pool res) (free : ℕ → List Ptr) (live : List Ptr)
    (v : IsValid pool free live) where
  -- a block that is handed out is in no free list
  pub not_live : (b : Ptr) (i : ℕ) → has b (free i) ≡ true → has b live ≡ false
  not_live b i h = elim (Bool-cases (has b live)) [ inl e ↦ cc (v.apart b i e) | inr e ↦ e ]

  -- a block of one class is free in no other
  pub other_class :
      (b : Ptr) (i j : ℕ) → (pool.blocks b).index ≡ i → (i == j) ≡ false → has b (free j) ≡ false
  other_class b i j e ne = elim (Bool-cases (has b (free j))) [
    | inl h ↦
        absurd
          (ground (arith, e, has-class pool.blocks j (pool.block_lists j) b (free j) (v.lists j) h))
    | inr h ↦ h
  ]

  module _ (i : ℕ) (b : Ptr) (bs : List Ptr) (first : free i ≡ b ∷ bs) where
    pub first_list : FreeList pool.blocks i (pool.block_lists i) (b ∷ bs)
    first_list = subst (λ l. FreeList pool.blocks i (pool.block_lists i) l) first (v.lists i)

    first_distinct : Distinct (b ∷ bs)
    first_distinct = subst (λ l. Distinct l) first (v.distinct i)

    live_apart : (a : Ptr) → has a live ≡ true → has a (b ∷ bs) ≡ false
    live_apart a h = subst (λ l. has a l ≡ false) first (v.apart a i h)

    first_apart : (j : ℕ) → has b (assign free i bs j) ≡ false
    first_apart j = elim (Bool-cases (i == j)) [
      | inl e ↦ rw e first_distinct.0
      | inr ne ↦ rw ne (other_class b i j first_list.2 ne)
    ]

    others_apart : (a : Ptr) (j : ℕ) → has a live ≡ true → has a (assign free i bs j) ≡ false
    others_apart a j h = elim (Bool-cases (i == j)) [
      | inl e ↦ rw e (ground (arith, live_apart a h))
      | inr ne ↦ rw ne (v.apart a j h)
    ]

    apart_after : (a : Ptr) (j : ℕ) → has a (b ∷ live) ≡ true → has a (assign free i bs j) ≡ false
    apart_after a j h = elim (Bool-cases (a == b)) [
      | inl e ↦
          subst (λ c. has c (assign free i bs j) ≡ false) (sym ((==_iff a b).0 e)) (first_apart j)
      | inr ne ↦ others_apart a j (ground arith)
    ]

    first_class : ltb i 32 ≡ true → ltb (pool.blocks b).index 32 ≡ true
    first_class small = rw first_list.2 small

    take_block-IsValid :
        (op : ℕ)
        → ltb i 32 ≡ true
        → IsValid (take_block res op i b pool) (assign free i bs) (b ∷ live)
    unfolding take_block
    take_block-IsValid op small = record {
      lists =
          assign-both (λ j p l. FreeList pool.blocks j p l) pool.block_lists free i
            (pool.blocks b).next bs first_list.3 v.lists;
      distinct = assign-all (λ j l. Distinct l) free i bs first_distinct.1 v.distinct;
      classes = λ a h. elim (Bool-cases (a == b)) [
        | inl e ↦
            subst (λ c. ltb (pool.blocks c).index 32 ≡ true) (sym ((==_iff a b).0 e))
              (first_class small)
        | inr ne ↦ v.classes a (ground arith)
      ];
      apart = apart_after;
      once = (not_live b i (rw first (ground (arith, ==-self b))), v.once);
      fed =
          assign-all (λ j l. (l ≡ []) ⊎ (pool.pending_allocation j ≡ [])) free i bs
            (elim (v.fed i) [ inl e ↦ absurd (ground (arith, e, first)) | inr e ↦ inr e ]) v.fed;
    }

    -- `start` with a free block of the class hands out the first of them, and keeps the others: the
    -- pool stays valid, and the block is not one that was handed out before.
    pub start_takes_free_block :
        (op : ℕ) (stop_requested : Bool)
        → ltb i 32 ≡ true
        → (after : Pool res) × (start_allocate res op i stop_requested pool ≡ some after)
          × (after.completions ≡ set_value op (b + header_size) ∷ pool.completions)
          × (has b live ≡ false)
          × IsValid after (assign free i bs) (b ∷ live)
    unfolding start_allocate take_block
    start_takes_free_block op stop_requested small = (
      take_block res op i (pool.block_lists i) pool,
      rw (small, kept),
      rw first_list.0,
      not_live b i (rw first (ground (arith, ==-self b))),
      subst (λ p. IsValid (take_block res op i p pool) (assign free i bs) (b ∷ live))
          (sym first_list.0) (take_block-IsValid op small),
    )
      where
        kept : (pool.block_lists i == null) ≡ false
        kept = ground (arith, first_list.0, first_list.1)

  module _ (i : ℕ) (none_free : free i ≡ []) where
    no_list : (pool.block_lists i == null) ≡ true
    no_list =
        rw (subst (λ l. FreeList pool.blocks i (pool.block_lists i) l) none_free (v.lists i)) refl

    -- `start` with no free block of the class, when upstream gives a new one, hands that out, and
    -- the pool stays valid.
    pub start_takes_new_block :
        (op : ℕ) (stop_requested : Bool) (b bytes : ℕ) (s : res.State)
        → ltb i 32 ≡ true
        → block_size i ≡ some bytes
        → resource_allocate res bytes pool.upstream ≡ (b, s)
        → b ≢ null
        → has b live ≡ false
        → ((j : ℕ) → has b (free j) ≡ false)
        → (after : Pool res) × (start_allocate res op i stop_requested pool ≡ some after)
          × (after.completions ≡ set_value op (b + header_size) ∷ pool.completions)
          × IsValid after free (b ∷ live)
    unfolding start_allocate ask_upstream
    start_takes_new_block op stop_requested b bytes s small size gives real new unlisted = (
      record pool {
        upstream = s;
        blocks = assign pool.blocks b (header null i);
        completions = set_value op (b + header_size) ∷ pool.completions;
      },
      rw (small, no_list, size, gives, real_test),
      refl,
      record {
        lists = λ j.
            FreeList-write pool.blocks j (pool.block_lists j) b (header null i) (free j)
              (unlisted j) (v.lists j);
        distinct = v.distinct;
        classes = λ a h. elim (Bool-cases (b == a)) [
          | inl e ↦ rw e small
          | inr ne ↦ rw ne (v.classes a (ground arith))
        ];
        apart = λ a j h. elim (Bool-cases (a == b)) [
          | inl e ↦ subst (λ c. has c (free j) ≡ false) (sym ((==_iff a b).0 e)) (unlisted j)
          | inr ne ↦ v.apart a j (ground arith)
        ];
        once = (new, v.once);
        fed = v.fed;
      },
    )
      where
        real_test : (b == null) ≡ false
        real_test = ground arith

    -- `start` with no free block of the class, when upstream gives none either and no stop was
    -- requested, puts the operation behind those that wait, completes nothing, and the pool stays
    -- valid.
    pub start_waits :
        (op bytes : ℕ) (s : res.State)
        → ltb i 32 ≡ true
        → block_size i ≡ some bytes
        → resource_allocate res bytes pool.upstream ≡ (null, s)
        → (after : Pool res) × (start_allocate res op i false pool ≡ some after)
          × (after.completions ≡ pool.completions)
          × (after.pending_allocation i ≡ pool.pending_allocation i ++ op ∷ [])
          × IsValid after free live
    unfolding start_allocate ask_upstream
    start_waits op bytes s small size gives = (
      record pool {
        upstream = s;
        pending_allocation =
            assign pool.pending_allocation i (pool.pending_allocation i ++ op ∷ []);
      },
      rw (small, no_list, size, gives),
      refl,
      rw (==-self i),
      record {
        lists = v.lists;
        distinct = v.distinct;
        classes = v.classes;
        apart = v.apart;
        once = v.once;
        fed =
            assign-all (λ j l. (free j ≡ []) ⊎ (l ≡ [])) pool.pending_allocation i
              (pool.pending_allocation i ++ op ∷ []) (inl none_free) v.fed;
      },
    )

    -- The same when a stop was requested before: `start` calls the stop callback under the lock that
    -- the callback takes, which is a fault.
    pub start_stopped_faults :
        (op bytes : ℕ) (s : res.State)
        → ltb i 32 ≡ true
        → block_size i ≡ some bytes
        → resource_allocate res bytes pool.upstream ≡ (null, s)
        → start_allocate res op i true pool ≡ none
    unfolding start_allocate ask_upstream
    start_stopped_faults op bytes s small size gives = rw (small, no_list, size, gives)
