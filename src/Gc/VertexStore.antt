-- ===== src/Gc/VertexStore.antt =====
-- 3FD/gc_vertexstore.h, 3FD/gc_vertexstore.cpp: the vertices of the memory blocks that are not
-- released, in an ordered set (`stx::btree_set`) and in the pool that their memory comes from.
pub mod Container
mod Examples
use fd.Base.{
  ℕ, ◌-◌, Bool, true, false, not, Option, none, some, List, [], ◌∷◌, Run, ok, stop, assertion,
  bad_alloc, null_pointer, ◌>>=◌, ◌>>◌, assert, ◌==◌, if◌then◌else◌, length, get_or,
}
use fd.Gc.MemAddress.{get}
use fd.Gc.ArrayOfEdges.{Allocator, returned, thrown, clear}
use fd.Gc.Vertex.{Vertex, Heap, read, write, new_vertex, contains}
use fd.Utils.DynamicMemPool.{DynamicMemPool, get_block, give_back, shrink}

-- The operations of the set, on its elements in the order of iteration, under a key that the
-- comparison reads. An iterator is an index; `end()` is the length, or `none` from `find`.
pub record OrderedSet : Type 0 where
  pub find : (ℕ → ℕ) → ℕ → List ℕ → Option ℕ
  pub lower_bound : (ℕ → ℕ) → ℕ → List ℕ → ℕ
  pub insert : (ℕ → ℕ) → ℕ → List ℕ → Bool × List ℕ
  pub erase : ℕ → List ℕ → List ℕ

-- What is outside: the set, the chunk that an allocation gives to a pool, and the float product
-- of the initial size of a pool with its growing factor, cut.
pub record Surroundings : Type 0 where
  pub ordered : OrderedSet
  pub chunk : DynamicMemPool → Option ℕ
  pub grown : ℕ

pub record VertexStore : Type 0 where
  pub heap : Heap
  pub pool : DynamicMemPool
  pub vertices : List ℕ

-- `LessOperOnVertexRepAddr` compares by this: the address of the block of a vertex.
unfoldable pub block_address : Heap → ℕ → ℕ
unfolding get
block_address h p = elim (h p) [ none ↦ 0 | some v ↦ get v.address ]

-- `~Vertex`, which clears the array of edges; what it throws ends the program.
unfoldable pub destroy : Allocator → Vertex → Run (Unit {0})
unfolding clear
destroy alloc v = elim (clear alloc v.incoming).0 [ returned ↦ ok tt | thrown ↦ stop bad_alloc ]

-- `delete`: the destructor, and the operator that gives the memory back to the pool
unfoldable pub delete_vertex : Allocator → VertexStore → ℕ → Run VertexStore
unfolding destroy
delete_vertex alloc s p = do
  v ← read s.heap p
  destroy alloc v
  pool' ← give_back s.pool p
  ok (record s { heap = write s.heap p none; pool = pool' })

-- The last step of `GetContainerVertex`.
check_at : VertexStore → ℕ → ℕ → Run ℕ
check_at s addr i = do
  v ← read s.heap (get_or s.vertices i 0)
  ok (if contains v addr then get_or s.vertices i 0 else 0)

-- The step before it, with the first vertex that does not start in front of the address.
check_from : VertexStore → ℕ → ℕ → Run ℕ
unfolding check_at
check_from s addr i = if i == length s.vertices then check_at s addr (i - 1) else (do
  v ← read s.heap (get_or s.vertices i 0)
  if contains v addr
      then ok (get_or s.vertices i 0)
      else check_at s addr (if i == 0 then i else i - 1))

module _ (around : Surroundings) where
  unfoldable pub get_vertex : VertexStore → ℕ → ℕ
  unfolding get
  get_vertex s mem_addr =
      elim (around.ordered.find (block_address s.heap) (get mem_addr) s.vertices) [
        | none ↦ 0
        | some i ↦ get_or s.vertices i 0
      ]

  -- The index of the first vertex that does not start in front of the address.
  unfoldable pub bound_of : VertexStore → ℕ → ℕ
  unfolding get
  bound_of s addr = around.ordered.lower_bound (block_address s.heap) (get addr) s.vertices

  unfoldable pub get_container_vertex : VertexStore → ℕ → Run ℕ
  unfolding check_from bound_of
  get_container_vertex s addr =
      if length s.vertices == 0 then ok 0 else check_from s addr (bound_of s addr)

  -- The pool does not give null; the constructor would write there.
  unfoldable pub add_vertex : VertexStore → ℕ → ℕ → ℕ → Run VertexStore
  add_vertex s mem_addr block_size free_callback = do
    (place, pool') ← get_block (around.chunk s.pool) around.grown s.pool
    v ← new_vertex mem_addr block_size free_callback
    elim place [
      | none ↦ stop null_pointer
      | some p ↦ do
        let heap' : Heap = write s.heap p (some v)
        let (inserted, vertices') = around.ordered.insert (block_address heap') p s.vertices
        assert inserted
        ok (record { heap = heap'; pool = pool'; vertices = vertices' })
    ]

  unfoldable pub remove_vertex : VertexStore → ℕ → Run VertexStore
  remove_vertex s p = do
    v ← read s.heap p
    elim (around.ordered.find (block_address s.heap) (block_address s.heap p) s.vertices) [
      | none ↦ stop assertion
      | some i ↦ ok (record s { vertices = around.ordered.erase i s.vertices })
    ]

unfoldable pub shrink_pool : VertexStore → Run VertexStore
shrink_pool s = do pool' ← shrink s.pool; ok (record s { pool = pool' })
