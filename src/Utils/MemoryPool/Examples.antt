-- ===== src/Utils/MemoryPool/Examples.antt =====
-- A `MemoryPool` (3FD/utils_memorypool.cpp) of two blocks of 16 bytes at the address 1000.
use fd.Base.{ℕ, ◌≡◌, refl, true, false, some, [], ◌∷◌, arith, Returns, ◌↔◌, ◌⊎◌, ◌+◌, ◌*◌}
use fd.Utils.MemoryPool.{MemoryPool, get_free_block, return_block, is_full}
use fd.Utils.MemoryPool.Blocks.{
  IsValid, Lends, get_free_block-Lends, return_block-IsValid, is_full_iff,
}

abbrev fresh : MemoryPool
fresh = record { base = 1000; next = 1000; end = 1032; block_size = 16; available = [] }

-- Both blocks were given out, and the first was returned.
abbrev half : MemoryPool
half = record { base = 1000; next = 1032; end = 1032; block_size = 16; available = 0 ∷ [] }

half-IsValid : IsValid half 2 2 (1 ∷ [])
half-IsValid = record {
  sized = omega arith;
  small = omega arith;
  reached = refl;
  bounded = refl;
  within = omega arith;
  once = λ i. ground arith;
  all = refl;
}

second_block : (get_free_block (get_free_block fresh).1).0 ≡ some 1016
unfolding get_free_block
second_block = refl

-- One block out and back in a pool of two: everything is available, and the pool is not full.
not_full : is_full (record fresh { next = 1016; available = 0 ∷ [] }) ≡ false
unfolding is_full
not_full = refl

get_free_block-Lends_example : Lends half 2 2 (1 ∷ []) (get_free_block half)
get_free_block-Lends_example = get_free_block-Lends half 2 2 (1 ∷ []) half-IsValid

return_block-IsValid_example : Returns (return_block half (1000 + 1 * 16)) λ q. IsValid q 2 2 []
return_block-IsValid_example = return_block-IsValid half 2 2 1 [] half-IsValid

is_full_iff_example :
    (is_full half ≡ true) ↔ ((◌≡◌ {A = ℕ} 1 0) × ((◌≡◌ {A = ℕ} 2 0) ⊎ (◌≡◌ {A = ℕ} 2 2)))
is_full_iff_example = is_full_iff half 2 2 (1 ∷ []) half-IsValid
