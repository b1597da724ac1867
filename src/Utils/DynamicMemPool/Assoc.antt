-- ===== src/Utils/DynamicMemPool/Assoc.antt =====
-- Reads of `m_memPools` (3FD/utils_dynmempool.cpp) after a change.
use fd.Base.{ℕ, ◌≡◌, refl, none, some, [], ◌∷◌, if◌then◌else◌, ◌==◌, arith}
use fd.Utils.MemoryPool.{MemoryPool}
use fd.Utils.DynamicMemPool.{Pools, find_pool, set_pool, insert_pool}

pub find_pool-set_pool :
    (c b : ℕ) (p q : MemoryPool) (ps : Pools)
    → find_pool b ps ≡ some p
    → find_pool c (set_pool b q ps) ≡ (if c == b then some q else find_pool c ps)
unfolding find_pool set_pool
find_pool-set_pool c b p q [] h = cc
find_pool-set_pool c b p q ((k, r) ∷ ps) h = ground (arith, find_pool-set_pool c b p q ps)

pub find_pool-insert_pool :
    (c b : ℕ) (q : MemoryPool) (ps : Pools)
    → find_pool b ps ≡ none
    → find_pool c (insert_pool b q ps) ≡ (if c == b then some q else find_pool c ps)
unfolding find_pool insert_pool
find_pool-insert_pool c b q [] h = refl
find_pool-insert_pool c b q ((k, r) ∷ ps) h = ground (arith, find_pool-insert_pool c b q ps)
