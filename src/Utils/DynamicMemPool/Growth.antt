-- ===== src/Utils/DynamicMemPool/Growth.antt =====
-- `GetFreeBlock` and `ReturnBlock` of `DynamicMemPool` (3FD/utils_dynmempool.cpp) over the blocks
-- that its pools have lent.
use fd.Base.{
  ℕ, ◌+◌, ◌*◌, ◌≡◌, refl, true, Option, some, List, [], ◌∷◌, if◌then◌else◌, ◌==◌, All, count,
  Returns, ==_self,
}
use fd.Utils.MemoryPool.{MemoryPool, is_empty}
use fd.Utils.MemoryPool.Blocks.{IsValid, return_block-IsValid, contains_lent}
use fd.Utils.DynamicMemPool.{
  Pools, DynamicMemPool, find_pool, set_pool, last_before, add_pool, take_free, get_block,
  give_back, drop_front,
}

-- Every pool stands under its base address, and has lent the blocks `lents` of that address.
abbrev pub Serves : DynamicMemPool → (ℕ → List ℕ) → Type 0
Serves d lents =
    (b : ℕ) (p : MemoryPool)
    → find_pool b d.pools ≡ some p
    → (n : ℕ) × (used : ℕ) × (p.base ≡ b)
      × (p.block_size ≡ d.block_size)
      × IsValid p n used (lents b)

-- The queue points to pools that are there.
abbrev pub Queued : Pools → List ℕ → Type 0
Queued ps = All (λ b. (p : MemoryPool) × (find_pool b ps ≡ some p))

abbrev pub lend : (ℕ → List ℕ) → ℕ → ℕ → ℕ → List ℕ
lend lents b i c = if c == b then i ∷ lents c else lents c

-- A block that was not lent is lent now, at the address that is returned.
abbrev pub LendsOne : DynamicMemPool → (ℕ → List ℕ) → Option ℕ × DynamicMemPool → Type 0
LendsOne d lents (addr, d') =
    (b : ℕ) × (i : ℕ) × (addr ≡ some (b + i * d.block_size))
    × (count i (lents b) ≡ 0)
    × Serves d' (lend lents b i)
    × Queued d'.pools d'.available_pools

-- When the queue is empty and a lent block goes back to a valid pool with no free block,
-- `ReturnBlock` ends with the queue empty: the next `GetFreeBlock` makes a new pool in spite of
-- the free block.
pub give_back-forgets :
    (d : DynamicMemPool) (b n used i : ℕ) (p : MemoryPool) (lent : List ℕ)
    → d.available_pools ≡ []
    → last_before (p.base + i * p.block_size) d.pools ≡ some (b, p)
    → is_empty p ≡ true
    → IsValid p n used (i ∷ lent)
    → Returns (give_back d (p.base + i * p.block_size)) λ d'.
      (d'.available_pools ≡ [])
      × ((chunk : Option ℕ) (grown : ℕ) → get_block chunk grown d' ≡ add_pool chunk grown d')
unfolding give_back get_block take_free drop_front
give_back-forgets d b n used i p lent none_queued found empty valid =
    let (q, run, _) = return_block-IsValid p n used i lent valid in
    (
      record d { pools = set_pool b q d.pools; available_pools = [] },
      rw (found, give_back, contains_lent p n used i lent valid, run, empty, none_queued, ==_self),
      (refl, λ chunk grown. refl),
    )
