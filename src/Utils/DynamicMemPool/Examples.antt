-- ===== src/Utils/DynamicMemPool/Examples.antt =====
-- A `DynamicMemPool` (3FD/utils_dynmempool.cpp) of one pool with one block, at the address 1000.
use fd.Base.{
  ℕ, ◌≡◌, refl, true, false, none, [], ◌∷◌, arith, Returns, ok, ◌+◌, ◌*◌, List, Option,
  if◌then◌else◌, ◌==◌,
}
use fd.Utils.MemoryPool.{MemoryPool, is_empty, contains, return_block, is_full}
use fd.Utils.MemoryPool.Blocks.{IsValid}
use fd.Utils.DynamicMemPool.{
  DynamicMemPool, find_pool, last_before, get_block, give_back, add_pool, shrink, set_pool,
  erase_pool,
}
use fd.Utils.DynamicMemPool.Growth.{give_back-forgets}

-- Its block is lent.
abbrev taken : MemoryPool
taken = record { base = 1000; next = 1016; end = 1016; block_size = 16; available = [] }

taken-IsValid : IsValid taken 1 1 (0 ∷ [])
taken-IsValid = record {
  sized = omega arith;
  small = omega arith;
  reached = refl;
  bounded = refl;
  within = omega arith;
  once = λ i. ground arith;
  all = refl;
}

abbrev pool : DynamicMemPool
pool = record {
  initial_size = 1;
  block_size = 16;
  pools = (1000, taken) ∷ [];
  available_pools = 1000 ∷ [];
}

abbrev lents : ℕ → List ℕ
lents b = if b == 1000 then 0 ∷ [] else []

-- The queue is empty after a shrink took the only other pool away.
abbrev forgotten : DynamicMemPool
forgotten = record pool { available_pools = [] }

give_back-forgets_example : Returns (give_back forgotten 1000) λ d'.
    (d'.available_pools ≡ [])
    × ((chunk : Option ℕ) (grown : ℕ) → get_block chunk grown d' ≡ add_pool chunk grown d')
unfolding last_before is_empty
give_back-forgets_example =
    give_back-forgets forgotten 1000 1 1 0 taken [] refl refl refl taken-IsValid

-- A second pool is made, its block comes back, and a shrink takes the first pool's queue place.
shrink_run :
    (elim (give_back (record pool { available_pools = 1000 ∷ [] }) 1000) [
      | ok d ↦ shrink d
      | fd.Base.stop e ↦ fd.Base.stop e
    ])
    ≡ ok (record pool { pools = []; available_pools = [] })
unfolding give_back shrink last_before contains return_block is_empty is_full set_pool find_pool
    erase_pool
shrink_run = refl
