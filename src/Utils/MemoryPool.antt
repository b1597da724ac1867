-- ===== src/Utils/MemoryPool.antt =====
-- 3FD/utils_memorypool.cpp: a chunk of memory that is given out in blocks of one size.
-- `available` is `m_availAddrsAsBlockIndex`, the top of the stack first. Addresses do not wrap.
pub mod Blocks
mod Examples
use fd.Base.{
  ℕ, ◌+◌, ◌-◌, ◌*◌, ◌/◌, ◌%◌, ◌^◌, Bool, true, false, ◌&&◌, ◌||◌, Option, none, some, List, [], ◌∷◌,
  Run, ok, stop, overflow, runtime_error, ◌>>=◌, ◌>>◌, assert, ltb, leb, ◌==◌, if◌then◌else◌,
  length,
}

pub record MemoryPool : Type 0 where
  pub base : ℕ
  pub next : ℕ
  pub end : ℕ
  pub block_size : ℕ
  pub available : List ℕ

-- A product of two `uint16_t`, which are promoted to `int`
unfoldable pub int_product : ℕ → ℕ → Run ℕ
int_product a b = if leb (2 ^ 31) (a * b) then stop overflow else ok (a * b)

-- The constructor; `chunk` is what the aligned allocation gives.
unfoldable pub new_memory_pool : Option ℕ → ℕ → ℕ → Run MemoryPool
unfolding int_product
new_memory_pool none num_blocks block_size = do
  n_bytes ← int_product num_blocks block_size
  assert (ltb 0 n_bytes)
  stop runtime_error
new_memory_pool (some chunk) num_blocks block_size = do
  n_bytes ← int_product num_blocks block_size
  assert (ltb 0 n_bytes)
  ok (record {
    base = chunk;
    next = chunk;
    end = chunk + n_bytes;
    block_size = block_size;
    available = [];
  })

unfoldable pub get_num_blocks : MemoryPool → ℕ
get_num_blocks p = (p.end - p.base) / p.block_size

unfoldable pub contains : MemoryPool → ℕ → Bool
contains p addr = leb p.base addr && ltb addr p.end

abbrev pub is_nil : List ℕ → Bool
is_nil [] = true
is_nil (x ∷ xs) = false

unfoldable pub is_full : MemoryPool → Bool
unfolding get_num_blocks
is_full p = length p.available == get_num_blocks p || p.next == p.base

unfoldable pub is_empty : MemoryPool → Bool
is_empty p = p.next == p.end && is_nil p.available

-- The branches of `GetFreeBlock`, by the stack of returned blocks. Their indices are below the count
-- of blocks, so that the product, an `int`, is below the size of the chunk, which the constructor
-- computed as an `int`.
take_block : MemoryPool → List ℕ → Option ℕ × MemoryPool
take_block p (top ∷ rest) = (some (p.base + top * p.block_size), record p { available = rest })
take_block p [] =
    if ltb p.next p.end then (some p.next, record p { next = p.next + p.block_size }) else (none, p)

unfoldable pub get_free_block : MemoryPool → Option ℕ × MemoryPool
unfolding take_block
get_free_block p = take_block p p.available

unfoldable pub return_block : MemoryPool → ℕ → Run MemoryPool
unfolding contains
return_block p addr = do
  assert (contains p addr)
  ok (record p { available = ((addr - p.base) / p.block_size % 2 ^ 16) ∷ p.available })
