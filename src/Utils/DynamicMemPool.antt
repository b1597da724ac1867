-- ===== src/Utils/DynamicMemPool.antt =====
-- 3FD/utils_dynmempool.cpp: a memory pool that grows by further chunks. `pools` is `m_memPools`,
-- each pool under its base address, in ascending order; `available_pools` is the queue of
-- pointers, a pool by its base address, the front first.
pub mod Assoc
pub mod Growth
mod Examples
use fd.Base.{
  ℕ, ◌+◌, ◌-◌, ◌*◌, ◌%◌, ◌^◌, Bool, true, false, Option, none, some, List, [], ◌∷◌, ◌++◌, Run, ok,
  stop, assertion, out_of_bounds, zero, suc, length, use_after_free, ◌>>=◌, ◌>>◌, assert, ltb, leb,
  ◌==◌, if◌then◌else◌, min, not,
}
use fd.Utils.MemoryPool.{
  MemoryPool, int_product, new_memory_pool, get_free_block, return_block, is_full, is_empty,
  contains,
}

abbrev pub Pools : Type 0
Pools = List (ℕ × MemoryPool)

pub record DynamicMemPool : Type 0 where
  pub initial_size : ℕ
  pub block_size : ℕ
  pub pools : Pools
  pub available_pools : List ℕ

-- A read through a pointer to a pool, and the change of a pool in place.
unfoldable pub find_pool : ℕ → Pools → Option MemoryPool
find_pool b [] = none
find_pool b ((k, p) ∷ ps) = if b == k then some p else find_pool b ps

unfoldable pub set_pool : ℕ → MemoryPool → Pools → Pools
set_pool b q [] = []
set_pool b q ((k, p) ∷ ps) = if b == k then (k, q) ∷ ps else (k, p) ∷ set_pool b q ps

-- `m_memPools.insert`, which keeps the order and does not replace
unfoldable pub insert_pool : ℕ → MemoryPool → Pools → Pools
insert_pool b q [] = (b, q) ∷ []
insert_pool b q ((k, p) ∷ ps) =
    if ltb b k
    then (b, q) ∷ (k, p) ∷ ps
    else if b == k
    then (k, p) ∷ ps
    else (k, p) ∷ insert_pool b q ps

unfoldable pub erase_pool : ℕ → Pools → Pools
erase_pool b [] = []
erase_pool b ((k, p) ∷ ps) = if b == k then ps else (k, p) ∷ erase_pool b ps

-- `--m_memPools.upper_bound(object)`: the last pool that does not start behind the object
unfoldable pub last_before : ℕ → Pools → Option (ℕ × MemoryPool)
last_before object [] = none
last_before object ((k, p) ∷ ps) =
    if ltb object k
    then none
    else (elim (last_before object ps) [ none ↦ some (k, p) | some later ↦ some later ])

unfoldable pub new_dynamic_mem_pool : ℕ → ℕ → Run DynamicMemPool
unfolding int_product
new_dynamic_mem_pool initial_size block_size = do
  n_bytes ← int_product initial_size block_size
  assert (ltb 0 n_bytes)
  ok (record {
    initial_size = initial_size;
    block_size = block_size;
    pools = [];
    available_pools = [];
  })

-- The size of a new pool; `grown` is the float product `m_initialSize * m_growingFactor`, cut.
unfoldable pub init_num_blocks : ℕ → DynamicMemPool → ℕ
init_num_blocks grown d = elim d.pools [ [] ↦ d.initial_size | p ∷ ps ↦ min grown (2 ^ 16 - 1) ]

-- A pointer as a number; the null pointer is 0.
abbrev pub address : Option ℕ → ℕ
address none = 0
address (some a) = a

-- The part of `GetFreeBlock` that makes a new pool in the chunk that the allocation gives, under
-- the address of its first block.
pub add_pool : Option ℕ → ℕ → DynamicMemPool → Run (Option ℕ × DynamicMemPool)
unfolding insert_pool
add_pool chunk grown d = do
  p ← new_memory_pool chunk (init_num_blocks grown d) d.block_size
  let (addr, q) = get_free_block p
  ok (
    addr,
    record d {
      pools = insert_pool (address addr) q d.pools;
      available_pools = d.available_pools ++ address addr ∷ [];
    },
  )

-- The pool at the front gave a block, or the search goes on with the rest of the queue.
take_from :
    DynamicMemPool
    → ℕ
    → List ℕ
    → Option ℕ × MemoryPool
    → Run (Option ℕ × DynamicMemPool)
    → Run (Option ℕ × DynamicMemPool)
take_from d b bs (none, q) rest = rest
take_from d b bs (some addr, q) rest =
    ok (some addr, record d { pools = set_pool b q d.pools; available_pools = b ∷ bs })

-- `GetFreeBlock`, by the queue: pools at its front that have no free block are dropped.
take_free : Option ℕ → ℕ → DynamicMemPool → List ℕ → Run (Option ℕ × DynamicMemPool)
unfolding add_pool take_from
take_free chunk grown d [] = add_pool chunk grown (record d { available_pools = [] })
take_free chunk grown d (b ∷ bs) = elim (find_pool b d.pools) [
  | none ↦ stop use_after_free
  | some p ↦ take_from d b bs (get_free_block p) (take_free chunk grown d bs)
]

unfoldable pub get_block : Option ℕ → ℕ → DynamicMemPool → Run (Option ℕ × DynamicMemPool)
unfolding take_free
get_block chunk grown d = take_free chunk grown d d.available_pools

-- `if (m_availableMemPools.front() == &memPool) m_availableMemPools.pop()`
drop_front : ℕ → List ℕ → List ℕ
drop_front b [] = []
drop_front b (q ∷ qs) = if q == b then qs else q ∷ qs

unfoldable pub give_back : DynamicMemPool → ℕ → Run DynamicMemPool
unfolding drop_front
give_back d object = elim (last_before object d.pools) [
  | none ↦ stop assertion
  | some (b, p) ↦ do
    assert (contains p object)
    q ← return_block p object
    ok (record d {
      pools = set_pool b q d.pools;
      available_pools =
          if is_empty p then drop_front b (d.available_pools ++ b ∷ []) else d.available_pools;
    })
]

-- The scan of the queue in `Shrink`: what is left in it, and the full pools.
scan_queue : ℕ → Pools → List ℕ → List ℕ → Run (List ℕ × List ℕ)
scan_queue zero ps queue full = ok (queue, full)
scan_queue (suc n) ps [] full = stop out_of_bounds
scan_queue (suc n) ps (b ∷ bs) full = elim (find_pool b ps) [
  | none ↦ stop use_after_free
  | some p ↦
      scan_queue n ps (if is_full p then bs else bs ++ b ∷ [])
        (if is_full p then full ++ p.base ∷ [] else full)
]

erase_all : List ℕ → Pools → Pools
erase_all [] ps = ps
erase_all (b ∷ bs) ps = erase_all bs (erase_pool b ps)

unfoldable pub shrink : DynamicMemPool → Run DynamicMemPool
unfolding scan_queue erase_all
shrink d = do
  (queue, full) ← scan_queue (length d.available_pools) d.pools d.available_pools []
  ok (record d { pools = erase_all full d.pools; available_pools = queue })
