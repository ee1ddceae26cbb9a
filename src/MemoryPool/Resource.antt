-- ===== src/MemoryPool/Resource.antt =====
-- What the pool asks of its upstream resource.
use senders_io.Prelude.{
  ℕ, zero, suc, ◌-◌, ◌<◌, ◌≡◌, refl, ◌≢◌, false, some, List, [], ◌∷◌, arith, ◌==◌, length,
}
use senders_io.MemoryPool.{
  Ptr, null, max_align, MemoryResource, Pool, block_size, resource_allocate, resource_deallocate,
  release_list,
}
use senders_io.MemoryPool.Valid.{FreeList}

-- A resource that counts the blocks that it has given and not got back.
pub record Counted (res : MemoryResource) : Type 0 where
  pub outstanding : res.State → ℕ
  pub gives :
      (bytes alignment : ℕ) (s : res.State)
      → (res.do_allocate bytes alignment s).0 ≢ null
      → outstanding (res.do_allocate bytes alignment s).1 ≡ suc (outstanding s)
  pub takes :
      (p bytes alignment : ℕ) (s : res.State)
      → p ≢ null
      → outstanding (res.do_deallocate p bytes alignment s) ≡ outstanding s - 1

-- A block that `allocate` of a memory_resource gives, and that is given back, leaves the resource
-- with one block more that it never gets back, since `allocate` asks it twice.
pub allocate_leaks :
    (res : MemoryResource) (counted : Counted res) (s : res.State) (bytes : ℕ)
    → (res.do_allocate bytes max_align s).0 ≢ null
    → (res.do_allocate bytes max_align (res.do_allocate bytes max_align s).1).0 ≢ null
    → counted.outstanding (
        resource_deallocate res
          (resource_allocate res bytes s).0
          bytes
          (resource_allocate res bytes s).1)
      ≡ suc (counted.outstanding s)
unfolding resource_allocate resource_deallocate
allocate_leaks res counted s bytes real real_too = rw (given) (
    omega (
      arith,
      counted.takes (res.do_allocate bytes max_align (res.do_allocate bytes max_align s).1).0 bytes
          max_align (res.do_allocate bytes max_align (res.do_allocate bytes max_align s).1).1
          real_too,
      counted.gives bytes max_align s real,
      counted.gives bytes max_align (res.do_allocate bytes max_align s).1 real_too,
    ))
  where
    given : ((res.do_allocate bytes max_align s).0 == null) ≡ false
    given = ground arith

-- each block given back in turn
abbrev pub give_all : (res : MemoryResource) → ℕ → List Ptr → res.State → res.State
give_all res bytes [] s = s
give_all res bytes (b ∷ bs) s = give_all res bytes bs (res.do_deallocate b bytes max_align s)

-- The loop of the destructor ends, and gives each block of a free list back to the resource, once
-- and with the size of its class.
pub release_list_gives_all :
    (res : MemoryResource) (fuel i bytes : ℕ) (p : Ptr) (bs : List Ptr) (pool : Pool res)
    → block_size i ≡ some bytes
    → FreeList pool.blocks i p bs
    → length bs < fuel
    → release_list res fuel i p pool ≡ some (give_all res bytes bs pool.upstream)
unfolding release_list resource_deallocate
release_list_gives_all res zero i bytes p bs pool size l lt = absurd (omega arith)
release_list_gives_all res (suc fuel) i bytes p [] pool size l lt = rw l refl
release_list_gives_all res (suc fuel) i bytes p (b ∷ bs) pool size l lt =
    rw (l.0, real, size)
      (release_list_gives_all res fuel i bytes (pool.blocks b).next bs
        (record pool { upstream = res.do_deallocate b bytes max_align pool.upstream }) size l.3
        (omega arith))
  where
    real : (b == null) ≡ false
    real = ground arith
