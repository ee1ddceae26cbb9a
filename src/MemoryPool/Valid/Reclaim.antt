-- ===== src/MemoryPool/Valid/Reclaim.antt =====
-- `start` of a deallocation on each of its branches, and how it goes together with an allocation.
use senders_io.Prelude.{
  assign-all, assign-both, assign, ==-self, ℕ, ◌+◌, ◌-◌, ◌≡◌, refl, ap, ◌∙◌, ◌≢◌, ◌⊎◌, inl, inr,
  Bool, true, false, some, List, [], ◌∷◌, ◌++◌, arith, ◌==◌,
}
use senders_io.Intrusive.Chain.{has, Distinct, ne_of_has}
use senders_io.MemoryPool.{
  Ptr, null, MemoryBlock, MemoryResource, set_value, set_stopped, deallocated, Pool, header,
  header_size, give_back, reclaim_memory, start_deallocate, start_allocate, on_receiver_stop, erase,
}
use senders_io.MemoryPool.Valid.{FreeList, IsValid, FreeList-write}
use senders_io.MemoryPool.Valid.Allocate.{start_takes_free_block}

module _ {res : MemoryResource} (pool : Pool res) (free : ℕ → List Ptr) (b : Ptr) (live : List Ptr)
    (v : IsValid pool free (b ∷ live)) (real : b ≢ null) where
  abbrev class : ℕ
  class = (pool.blocks b).index

  own : has b (b ∷ live) ≡ true
  own = ground (arith, ==-self b)

  ptr_real : (b + header_size == null) ≡ false
  ptr_real = ground arith

  block_of : b + header_size - header_size ≡ b
  block_of = omega arith

  -- A block that is given back while an operation of its class waits goes to the first of those, and
  -- stays handed out; the pool stays valid.
  pub deallocate_wakes :
      (op : ℕ) (ops : List ℕ)
      → pool.pending_allocation (pool.blocks b).index ≡ op ∷ ops
      → (after : Pool res) × (start_deallocate res (b + header_size) pool ≡ some after)
        × (after.completions
            ≡ deallocated (b + header_size) ∷ set_value op (b + header_size) ∷ pool.completions)
        × (after.pending_allocation (pool.blocks b).index ≡ ops)
        × IsValid after free (b ∷ live)
  unfolding start_deallocate reclaim_memory give_back
  deallocate_wakes op ops waits = (
    record pool {
      pending_allocation = assign pool.pending_allocation (pool.blocks b).index ops;
      completions =
          deallocated (b + header_size) ∷ set_value op (b + header_size) ∷ pool.completions;
    },
    rw (ptr_real, block_of, v.classes b own, waits),
    refl,
    rw (==-self (pool.blocks b).index),
    record {
      lists = v.lists;
      distinct = v.distinct;
      classes = v.classes;
      apart = v.apart;
      once = v.once;
      fed =
          assign-all (λ j l. (free j ≡ []) ⊎ (l ≡ [])) pool.pending_allocation (pool.blocks b).index
            ops
            (elim (v.fed (pool.blocks b).index) [
              | inl e ↦ inl e
              | inr e ↦ absurd (ground (arith, e, waits))
            ])
            v.fed;
    },
  )

  -- A block that is given back while no operation of its class waits becomes the first free block of
  -- its class; the pool stays valid.
  pub deallocate_keeps :
      pool.pending_allocation (pool.blocks b).index ≡ []
      → (after : Pool res) × (start_deallocate res (b + header_size) pool ≡ some after)
        × (after.completions ≡ deallocated (b + header_size) ∷ pool.completions)
        × IsValid after (assign free (pool.blocks b).index (b ∷ free (pool.blocks b).index)) live
  unfolding start_deallocate reclaim_memory give_back
  deallocate_keeps idle = (
    record pool {
      blocks = assign pool.blocks b (header (pool.block_lists class) class);
      block_lists = assign pool.block_lists class b;
      completions = deallocated (b + header_size) ∷ pool.completions;
    },
    rw (ptr_real, block_of, v.classes b own, idle, give_back, block_of),
    refl,
    record {
      lists =
          assign-both (λ j p l. FreeList blocks_after j p l) pool.block_lists free class b
            (b ∷ free class) (refl, real, rw (==-self b) refl, rw (==-self b) (kept_list class))
            kept_list;
      distinct =
          assign-all (λ j l. Distinct l) free class (b ∷ free class)
            (v.apart b class own, v.distinct class) v.distinct;
      classes = λ a h. rw (not_b a h) (v.classes a (ground arith));
      apart = λ a j h.
          assign-all (λ k l. has a l ≡ false) free class (b ∷ free class)
            (rw (b_not a h) (v.apart a class (ground arith))) (λ k. v.apart a k (ground arith)) j;
      once = v.once.1;
      fed =
          assign-all (λ j l. (l ≡ []) ⊎ (pool.pending_allocation j ≡ [])) free class
            (b ∷ free class) (inr idle) v.fed;
    },
  )
    where
      blocks_after : Ptr → MemoryBlock
      blocks_after = assign pool.blocks b (header (pool.block_lists class) class)

      kept_list : (j : ℕ) → FreeList blocks_after j (pool.block_lists j) (free j)
      kept_list j =
          FreeList-write pool.blocks j (pool.block_lists j) b
            (header (pool.block_lists class) class) (free j) (v.apart b j own) (v.lists j)

      b_not : (a : Ptr) → has a live ≡ true → (a == b) ≡ false
      b_not a h = ne_of_has a b live h v.once.0

      not_b : (a : Ptr) → has a live ≡ true → (b == a) ≡ false
      not_b a h = ground (arith, b_not a h)

  -- A block that is given back while no operation of its class waits is the one that the next
  -- allocation of the class gets.
  pub deallocate_then_allocate :
      (op : ℕ) (stop_requested : Bool)
      → pool.pending_allocation (pool.blocks b).index ≡ []
      → (between after : Pool res) × (start_deallocate res (b + header_size) pool ≡ some between)
        × (start_allocate res op (pool.blocks b).index stop_requested between ≡ some after)
        × (after.completions
            ≡ set_value op (b + header_size) ∷ deallocated (b + header_size) ∷ pool.completions)
  deallocate_then_allocate op stop_requested idle =
      let (between, ran, told, valid) = deallocate_keeps idle in
      let (after, ran_too, told_too, _, _) =
        start_takes_free_block between
          (assign free (pool.blocks b).index (b ∷ free (pool.blocks b).index)) live valid
          (pool.blocks b).index b (free (pool.blocks b).index)
          (rw (==-self (pool.blocks b).index) refl) op stop_requested (v.classes b own) in
      (between, after, ran, ran_too, told_too ∙ ap (λ c. set_value op (b + header_size) ∷ c) told)

erase-subset : (op : ℕ) (ops : List ℕ) → ops ≡ [] → erase op ops ≡ []
erase-subset op ops e = rw e refl

-- An operation that is stopped while it waits is no longer waiting, is told so, and the pool stays
-- valid.
pub on_receiver_stop-IsValid :
    {res : MemoryResource} (pool : Pool res) (free : ℕ → List Ptr) (live : List Ptr) (op i : ℕ)
    (before rest : List ℕ)
    → IsValid pool free live
    → pool.pending_allocation i ≡ before ++ op ∷ rest
    → has op before ≡ false
    → ((on_receiver_stop res op i pool).pending_allocation i ≡ before ++ rest)
      × ((on_receiver_stop res op i pool).completions ≡ set_stopped op ∷ pool.completions)
      × IsValid (on_receiver_stop res op i pool) free live
unfolding on_receiver_stop
on_receiver_stop-IsValid {res} pool free live op i before rest v waits new = (
  rw (==-self i, waits) (erase_first before new),
  refl,
  record {
    lists = v.lists;
    distinct = v.distinct;
    classes = v.classes;
    apart = v.apart;
    once = v.once;
    fed =
        assign-all (λ j l. (free j ≡ []) ⊎ (l ≡ [])) pool.pending_allocation i
          (erase op (pool.pending_allocation i))
          (elim (v.fed i) [
            | inl e ↦ inl e
            | inr e ↦ inr (erase-subset op (pool.pending_allocation i) e)
          ])
          v.fed;
  },
)
  where
    erase_first : (xs : List ℕ) → has op xs ≡ false → erase op (xs ++ op ∷ rest) ≡ xs ++ rest
    erase_first [] h = rw (==-self op) refl
    erase_first (x ∷ xs) h = rw (other) (ap (λ l. x ∷ l) (erase_first xs (ground (arith, h))))
      where
        other : (op == x) ≡ false
        other = ground (arith, h)
