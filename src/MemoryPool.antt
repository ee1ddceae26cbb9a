-- ===== src/MemoryPool.antt =====
-- source/sio/memory_pool.hpp and source/sio/memory_pool.cpp: a pool that keeps the blocks that are
-- given back, in one free list for each size class, and lets an allocation that the upstream
-- resource refuses wait for a block. Memory is seen through the headers of the blocks: an address
-- is a number, and the header at an address is touched by no write to another block. The lock
-- makes each operation one step, and the list of waiting operations is given by its items. A fault
-- (a failed assertion, undefined behaviour, a deadlock) is `none`.
pub mod Log2
pub mod Valid
pub mod Resource
pub mod Tests
use senders_io.Prelude.{
  assign, ℕ, zero, suc, ◌+◌, ◌-◌, ◌^◌, Bool, Option, none, some, List, [], ◌∷◌, ◌++◌, ltb, ◌==◌,
  if◌then◌else◌, ◌>>=◌,
}

abbrev pub Ptr : Type 0
Ptr = ℕ

abbrev pub null : Ptr
null = 0

-- sizeof(memory_block)
abbrev pub header_size : ℕ
header_size = 16

-- alignof(max_align_t)
abbrev pub max_align : ℕ
max_align = 16

pub record MemoryBlock : Type 0 where
  pub next : Ptr
  pub index : ℕ

abbrev pub header : Ptr → ℕ → MemoryBlock
header next index = record { next = next; index = index }

-- The virtual functions of a memory_resource, over a state of its own.
pub record MemoryResource : Type 1 where
  pub State : Type 0
  pub do_allocate : (bytes alignment : ℕ) → State → Ptr × State
  pub do_deallocate : Ptr → (bytes alignment : ℕ) → State → State

-- What a receiver is told, with the operation that it belongs to.
pub data Completion : Type 0 where
  set_value : ℕ → Ptr → Completion
  set_stopped : ℕ → Completion
  deallocated : Ptr → Completion

-- `1 << (index + 1)` as an int, converted to std::size_t
unfoldable pub block_size : ℕ → Option ℕ
block_size index =
    if ltb index 30
    then some (2 ^ (index + 1))
    else if index == 30
    then some (2 ^ 64 - 2 ^ 31)
    else none

-- intrusive_list::erase, on the items
abbrev pub erase : ℕ → List ℕ → List ℕ
erase op [] = []
erase op (x ∷ xs) = if op == x then xs else x ∷ erase op xs

module _ (res : MemoryResource) where
  open res use {State}

  unfoldable pub resource_allocate : ℕ → State → Ptr × State
  resource_allocate bytes s =
      let (ptr, s1) = res.do_allocate bytes max_align s in
      if ptr == null then (null, s1) else res.do_allocate bytes max_align s1

  unfoldable pub resource_deallocate : Ptr → ℕ → State → State
  resource_deallocate p bytes s = res.do_deallocate p bytes max_align s

  pub record Pool : Type 0 where
    pub upstream : State
    pub blocks : Ptr → MemoryBlock
    pub block_lists : ℕ → Ptr
    pub pending_allocation : ℕ → List ℕ
    -- the completions so far, the last one first
    pub completions : List Completion

  -- the constructor, over memory that holds anything
  unfoldable pub new_pool : State → (Ptr → MemoryBlock) → Pool
  new_pool s memory = record {
    upstream = s;
    blocks = memory;
    block_lists = λ _. null;
    pending_allocation = λ _. [];
    completions = [];
  }

  -- set_value of an allocation, after the lock is let go
  abbrev pub hand_out : ℕ → Ptr → Pool → Pool
  hand_out op buffer pool = record pool {
    completions = set_value op (buffer + header_size) ∷ pool.completions;
  }

  -- A block from the free list of the class.
  unfoldable pub take_block : ℕ → ℕ → Ptr → Pool → Pool
  take_block op index buffer pool =
      hand_out op buffer
        (record pool { block_lists = assign pool.block_lists index (pool.blocks buffer).next })

  -- A block from upstream, or a place among the waiting operations. A stop that was requested
  -- before calls on_receiver_stop under the lock, which it then wants to take.
  unfoldable pub ask_upstream : ℕ → ℕ → Bool → ℕ → Pool → Option Pool
  ask_upstream op index stop_requested bytes pool =
      let (buffer, s) = resource_allocate bytes pool.upstream in
      if buffer == null
      then (if stop_requested
          then none
          else some (record pool {
            upstream = s;
            pending_allocation =
                assign pool.pending_allocation index (pool.pending_allocation index ++ op ∷ []);
          }))
      else some (
          hand_out op buffer
            (record pool { upstream = s; blocks = assign pool.blocks buffer (header null index) }))

  -- allocate_operation::start
  unfoldable pub start_allocate : ℕ → ℕ → Bool → Pool → Option Pool
  start_allocate op index stop_requested pool =
      if ltb index 32
      then (if pool.block_lists index == null
          then (block_size index >>= λ bytes. ask_upstream op index stop_requested bytes pool)
          else some (take_block op index (pool.block_lists index) pool))
      else none

  -- allocate_operation::on_receiver_stop
  unfoldable pub on_receiver_stop : ℕ → ℕ → Pool → Pool
  on_receiver_stop op index pool = record pool {
    pending_allocation =
        assign pool.pending_allocation index (erase op (pool.pending_allocation index));
    completions = set_stopped op ∷ pool.completions;
  }

  -- reclaim_memory once the header is read: the first operation that waits gets the block, or else
  -- the free list
  unfoldable pub give_back : Ptr → MemoryBlock → List ℕ → Pool → Pool
  give_back ptr block [] pool = record pool {
    blocks =
        assign pool.blocks (ptr - header_size) (header (pool.block_lists block.index) block.index);
    block_lists = assign pool.block_lists block.index (ptr - header_size);
  }
  give_back ptr block (op ∷ ops) pool = record pool {
    pending_allocation = assign pool.pending_allocation block.index ops;
    completions = set_value op ptr ∷ pool.completions;
  }

  unfoldable pub reclaim_memory : Ptr → Pool → Option Pool
  reclaim_memory ptr pool =
      if ptr == null
      then some pool
      else (let block = pool.blocks (ptr - header_size) in
          if ltb block.index 32
          then some (give_back ptr block (pool.pending_allocation block.index) pool)
          else none)

  -- deallocate_operation::start, for an object whose destructor does not touch the pool
  unfoldable pub start_deallocate : Ptr → Pool → Option Pool
  start_deallocate ptr pool = do
    after ← reclaim_memory ptr pool
    some (record after { completions = deallocated ptr ∷ after.completions })

  -- the inner loop of the destructor, on fuel
  unfoldable pub release_list : ℕ → ℕ → Ptr → Pool → Option State
  release_list zero index ptr pool = none
  release_list (suc fuel) index ptr pool = if ptr == null then some pool.upstream else do
    bytes ← block_size index
    release_list fuel index (pool.blocks ptr).next
        (record pool { upstream = resource_deallocate ptr bytes pool.upstream })

  -- the destructor, from the class `index` on, n classes
  unfoldable pub release_from : (fuel n index : ℕ) → Pool → Option State
  release_from fuel zero index pool = some pool.upstream
  release_from fuel (suc n) index pool = do
    s ← release_list fuel index (pool.block_lists index) pool
    release_from fuel n (index + 1) (record pool { upstream = s })

  unfoldable pub destroy : ℕ → Pool → Option State
  destroy fuel pool = release_from fuel 32 0 pool
