-- ===== src/MemoryPool/Valid.antt =====
-- The blocks that the pool keeps and those that it has handed out.
pub mod Allocate
pub mod Reclaim
use senders_io.Prelude.{
  assign, ℕ, ◌≡◌, sym, subst, ◌≢◌, ◌⊎◌, inl, inr, true, false, List, [], ◌∷◌, arith, ltb, ◌==◌,
  ==_iff, Bool-cases,
}
use senders_io.Intrusive.Chain.{has, Distinct}
use senders_io.MemoryPool.{Ptr, null, MemoryBlock, MemoryResource, Pool, header}

-- From p on, the `next` fields of the headers go through the blocks bs of the class i.
abbrev pub FreeList : (Ptr → MemoryBlock) → ℕ → Ptr → List Ptr → Type 0
FreeList blocks i p [] = p ≡ null
FreeList blocks i p (b ∷ bs) =
    (p ≡ b) × (b ≢ null) × ((blocks b).index ≡ i) × FreeList blocks i (blocks b).next bs

-- A block that is handed out has the class that its header says, and an operation waits in no class
-- that has a free block.
pub record IsValid {res : MemoryResource} (pool : Pool res) (free : ℕ → List Ptr) (live : List Ptr)
    : Type 0 where
  pub lists : (i : ℕ) → FreeList pool.blocks i (pool.block_lists i) (free i)
  pub distinct : (i : ℕ) → Distinct (free i)
  pub classes : (b : Ptr) → has b live ≡ true → ltb (pool.blocks b).index 32 ≡ true
  pub apart : (b : Ptr) (i : ℕ) → has b live ≡ true → has b (free i) ≡ false
  pub once : Distinct live
  pub fed : (i : ℕ) → (free i ≡ []) ⊎ (pool.pending_allocation i ≡ [])

pub FreeList-write :
    (blocks : Ptr → MemoryBlock) (i : ℕ) (p a : Ptr) (v : MemoryBlock) (bs : List Ptr)
    → has a bs ≡ false
    → FreeList blocks i p bs
    → FreeList (assign blocks a v) i p bs
FreeList-write blocks i p a v [] out l = l
FreeList-write blocks i p a v (b ∷ bs) out l = (
  l.0,
  l.1,
  rw miss l.2,
  rw miss (FreeList-write blocks i (blocks b).next a v bs (ground arith) l.3),
)
  where
    miss : (a == b) ≡ false
    miss = ground arith

-- a block of one class is in the list of no other
pub has-class :
    (blocks : Ptr → MemoryBlock) (i : ℕ) (p b : Ptr) (bs : List Ptr)
    → FreeList blocks i p bs
    → has b bs ≡ true
    → (blocks b).index ≡ i
has-class blocks i p b [] l h = absurd (ground arith)
has-class blocks i p b (x ∷ bs) l h = elim (Bool-cases (b == x)) [
  | inl e ↦ subst (λ y. (blocks y).index ≡ i) (sym ((==_iff b x).0 e)) l.2
  | inr e ↦ has-class blocks i (blocks x).next b bs l.3 (ground arith)
]
