-- ===== src/MemoryPool/Tests.antt =====
-- A pool over a resource that gives a number of blocks, and what is proved of it.
use senders_io.Prelude.{
  assign, ℕ, suc, ◌+◌, ◌-◌, ◌*◌, ◌^◌, ◌≤◌, ◌<◌, ◌≡◌, refl, subst, ◌⊎◌, inl, inr, false, none, some,
  List, [], ◌∷◌, arith, ◌==◌, if◌then◌else◌, ==_iff, Bool-cases, sub64,
}
use senders_io.Intrusive.Chain.{has}
use senders_io.MemoryPool.{
  Ptr, null, MemoryResource, set_value, set_stopped, deallocated, Pool, header, block_size,
  start_allocate, start_deallocate, on_receiver_stop, resource_allocate, resource_deallocate,
}
use senders_io.MemoryPool.Valid.{FreeList, IsValid}
use senders_io.MemoryPool.Valid.Allocate.{start_takes_free_block, start_waits}
use senders_io.MemoryPool.Valid.Reclaim.{
  deallocate_wakes, deallocate_keeps, on_receiver_stop-IsValid,
}
use senders_io.MemoryPool.Log2.{log2_64, allocate}
use senders_io.MemoryPool.Log2.Class.{log2_64-floor, allocate_fits}
use senders_io.MemoryPool.Log2.Overflow.{allocate_overflows}
use senders_io.MemoryPool.Resource.{Counted, allocate_leaks}

log2_run : log2_64 1000 ≡ 9
unfolding log2_64 sub64
log2_run = refl

-- the address of the next block, how many are left, and how many are out
record Arena : Type 0 where
  next : ℕ
  left : ℕ
  out : ℕ

abbrev arena : MemoryResource
arena = record {
  State = Arena;
  do_allocate = λ bytes alignment s.
      if s.left == 0
      then (null, s)
      else (suc s.next, record { next = s.next + bytes; left = s.left - 1; out = suc s.out });
  do_deallocate = λ p bytes alignment s. record s { out = s.out - 1 };
}

arena_counted : Counted arena
arena_counted = record {
  outstanding = λ s. s.out;
  gives = λ bytes alignment s real. elim (Bool-cases (s.left == 0)) [
    | inl e ↦ absurd (real (rw e refl))
    | inr e ↦ rw e refl
  ];
  takes = λ p bytes alignment s real. refl;
}

abbrev state : ℕ → Arena
state left = record { next = 1000; left = left; out = 0 }

-- the block 1 is free in class 5, the block 2 of class 5 handed out, and nobody waits
abbrev idle : Pool arena
idle = record {
  upstream = state 4;
  blocks = λ p. header 0 5;
  block_lists = λ i. if i == 5 then 1 else 0;
  pending_allocation = λ i. [];
  completions = [];
}

abbrev free : ℕ → List Ptr
free i = if i == 5 then 1 ∷ [] else []

idle-IsValid : IsValid idle free (2 ∷ [])
idle-IsValid = record {
  lists = λ i. elim (Bool-cases (5 == i)) [
    | inl e ↦
        subst (λ j. FreeList idle.blocks j (idle.block_lists j) (free j)) ((==_iff 5 i).0 e)
          (refl, omega arith, refl, refl)
    | inr ne ↦ rw (other i ne) refl
  ];
  distinct = λ i. elim (Bool-cases (i == 5)) [ inl e ↦ rw e (refl, tt) | inr ne ↦ rw ne tt ];
  classes = λ b h. refl;
  apart = λ b i h. elim (Bool-cases (i == 5)) [
    | inl e ↦ rw e (ground (arith, h))
    | inr ne ↦ rw ne refl
  ];
  once = (refl, tt);
  fed = λ i. inr refl;
}
  where
    other : (i : ℕ) → (5 == i) ≡ false → (i == 5) ≡ false
    other i ne = ground arith

-- the block 2 of class 5 is handed out, nothing is free, and the operation 9 waits
abbrev waiting : Pool arena
waiting = record {
  upstream = state 0;
  blocks = λ p. header 0 5;
  block_lists = λ i. null;
  pending_allocation = λ i. if i == 5 then 9 ∷ [] else [];
  completions = [];
}

abbrev no_free : ℕ → List Ptr
no_free i = []

waiting-IsValid : IsValid waiting no_free (2 ∷ [])
waiting-IsValid = record {
  lists = λ i. refl;
  distinct = λ i. tt;
  classes = λ b h. refl;
  apart = λ b i h. refl;
  once = (refl, tt);
  fed = λ i. inl refl;
}

start_takes_free_block_example :
    (after : Pool arena) × (start_allocate arena 7 5 false idle ≡ some after)
    × (after.completions ≡ set_value 7 17 ∷ [])
    × (has 1 (2 ∷ []) ≡ false)
    × IsValid after (assign free 5 []) (1 ∷ 2 ∷ [])
start_takes_free_block_example =
    start_takes_free_block idle free (2 ∷ []) idle-IsValid 5 1 [] refl 7 false refl

start_waits_example :
    (after : Pool arena) × (start_allocate arena 7 5 false waiting ≡ some after)
    × (after.completions ≡ [])
    × (after.pending_allocation 5 ≡ 9 ∷ 7 ∷ [])
    × IsValid after no_free (2 ∷ [])
unfolding block_size resource_allocate
start_waits_example =
    start_waits waiting no_free (2 ∷ []) waiting-IsValid 5 refl 7 64 (state 0) refl refl refl

deallocate_wakes_example :
    (after : Pool arena) × (start_deallocate arena 18 waiting ≡ some after)
    × (after.completions ≡ deallocated 18 ∷ set_value 9 18 ∷ [])
    × (after.pending_allocation 5 ≡ [])
    × IsValid after no_free (2 ∷ [])
deallocate_wakes_example =
    deallocate_wakes waiting no_free 2 [] waiting-IsValid (omega arith) 9 [] refl

deallocate_keeps_example :
    (after : Pool arena) × (start_deallocate arena 18 idle ≡ some after)
    × (after.completions ≡ deallocated 18 ∷ [])
    × IsValid after (assign free 5 (2 ∷ 1 ∷ [])) []
deallocate_keeps_example = deallocate_keeps idle free 2 [] idle-IsValid (omega arith) refl

on_receiver_stop-IsValid_example :
    ((on_receiver_stop arena 9 5 waiting).pending_allocation 5 ≡ [])
    × ((on_receiver_stop arena 9 5 waiting).completions ≡ set_stopped 9 ∷ [])
    × IsValid (on_receiver_stop arena 9 5 waiting) no_free (2 ∷ [])
on_receiver_stop-IsValid_example =
    on_receiver_stop-IsValid waiting no_free (2 ∷ []) 9 5 [] [] waiting-IsValid refl refl

log2_64-floor_example : log2_64 1000 ≡ 9
log2_64-floor_example = log2_64-floor 1000 9 (omega arith) (omega arith) (omega arith)

allocate_fits_example :
    (i bytes : ℕ) × (allocate 1000 ≡ some i)
    × (block_size i ≡ some bytes)
    × (1016 < bytes)
    × (bytes ≤ 2 * 1016)
allocate_fits_example = allocate_fits 1000 (omega arith)

allocate_overflows_example :
    (i : ℕ) × (allocate (2 ^ 31) ≡ some i)
    × ((block_size i ≡ some (2 ^ 64 - 2 ^ 31)) ⊎ (block_size i ≡ none))
allocate_overflows_example = allocate_overflows (2 ^ 31) (omega arith) (omega arith)

allocate_leaks_example :
    (resource_deallocate arena
      (resource_allocate arena 64 (state 4)).0
      64
      (resource_allocate arena 64 (state 4)).1).out
    ≡ 1
unfolding arena_counted
allocate_leaks_example = allocate_leaks arena arena_counted (state 4) 64 (omega arith) (omega arith)
