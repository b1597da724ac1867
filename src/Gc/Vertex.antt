-- ===== src/Gc/Vertex.antt =====
-- 3FD/gc_vertex.h, 3FD/gc_vertex.cpp: a vertex of the memory digraph, and the memory that holds
-- the vertices. A `Vertex *` is the number under which the vertex stands in the heap.
use fd.Base.{
  ℕ, ◌+◌, ◌-◌, ◌%◌, ◌^◌, Bool, not, ◌&&◌, Option, none, some, Run, ok, stop, use_after_free,
  bad_alloc, ◌>>◌, assert, ltb, leb, ◌==◌, if◌then◌else◌, length,
}
use fd.Gc.ArrayOfEdges.{
  ArrayOfEdges, Allocator, Status, returned, thrown, new_array, add_root_edge, add_regular_edge,
  remove_root_edge, remove_regular_edge,
}
use fd.Gc.MemAddress.{get, set_bit0, get_bit0}

-- `address` is `m_memAddr`, flags included; `free_callback` names `m_freeMemCallback`.
pub record Vertex : Type 0 where
  pub address : ℕ
  pub incoming : ArrayOfEdges
  pub free_callback : ℕ
  pub block_size : ℕ
  pub out_edge_count : ℕ

-- The constructor, with its assertion. `m_blockSize` has 32 bits.
unfoldable pub new_vertex : ℕ → ℕ → ℕ → Run Vertex
unfolding get_bit0 new_array
new_vertex mem_addr block_size free_callback = do
  assert (not (get_bit0 mem_addr))
  ok (record {
    address = mem_addr;
    incoming = new_array;
    free_callback = free_callback;
    block_size = block_size % 2 ^ 32;
    out_edge_count = 0;
  })

unfoldable pub increment_outgoing_edge_count : Vertex → Vertex
increment_outgoing_edge_count v = record v { out_edge_count = (v.out_edge_count + 1) % 2 ^ 32 }

-- The assertion that the unsigned counter is not negative always holds.
unfoldable pub decrement_outgoing_edge_count : Vertex → Vertex
decrement_outgoing_edge_count v = record v {
  out_edge_count = (v.out_edge_count + 2 ^ 32 - 1) % 2 ^ 32;
}

unfoldable pub has_any_edges : Vertex → Bool
has_any_edges v = ltb 0 ((length v.incoming.edges + v.out_edge_count) % 2 ^ 32)

unfoldable pub contains : Vertex → ℕ → Bool
unfolding get
contains v addr = leb (get v.address) addr && ltb addr ((get v.address + v.block_size) % 2 ^ 64)

unfoldable pub mark : Bool → Vertex → Vertex
unfolding set_bit0
mark on v = record v { address = set_bit0 on v.address }

unfoldable pub is_marked : Vertex → Bool
unfolding get_bit0
is_marked v = get_bit0 v.address

unfoldable pub are_repr_obj_resources_released : Vertex → Bool
unfolding get
are_repr_obj_resources_released v = get v.address == 0

-- `ReleaseReprObjResources`: the vertex after it, and the block that the callback frees.
unfoldable pub release_repr_obj_resources : Vertex → Run (Vertex × ℕ)
unfolding get
release_repr_obj_resources v = do
  assert (not (get v.address == 0))
  ok (record v { address = 0 }, get v.address)

-- An operation of the array that the vertex owns; its exception leaves the caller too.
unfoldable pub on_incoming : Vertex → Run (Status × ArrayOfEdges) → Run Vertex
on_incoming v (ok (returned, a)) = ok (record v { incoming = a })
on_incoming v (ok (thrown, a)) = stop bad_alloc
on_incoming v (stop e) = stop e

module _ (alloc : Allocator) where
  -- `ReceiveEdgeFrom`, for root and for regular vertices
  unfoldable pub receive_edge_from_root : Vertex → ℕ → Run Vertex
  unfolding on_incoming add_root_edge
  receive_edge_from_root v root = on_incoming v (add_root_edge alloc v.incoming root)

  unfoldable pub receive_edge_from_regular : Vertex → ℕ → Run Vertex
  unfolding on_incoming add_regular_edge
  receive_edge_from_regular v u = on_incoming v (add_regular_edge alloc v.incoming u)

  -- `RemoveEdgeFrom`, for root and for regular vertices
  unfoldable pub remove_edge_from_root : Vertex → ℕ → Run Vertex
  unfolding on_incoming remove_root_edge
  remove_edge_from_root v root = on_incoming v (remove_root_edge alloc v.incoming root)

  unfoldable pub remove_edge_from_regular : Vertex → ℕ → Run Vertex
  unfolding on_incoming remove_regular_edge
  remove_edge_from_regular v u = on_incoming v (remove_regular_edge alloc v.incoming u)

-- The memory of the vertices; what was deleted, or never was a vertex, is `none`.
abbrev pub Heap : Type 0
Heap = ℕ → Option Vertex

-- `*p`
unfoldable pub read : Heap → ℕ → Run Vertex
read h p = elim (h p) [ none ↦ stop use_after_free | some v ↦ ok v ]

unfoldable pub write : Heap → ℕ → Option Vertex → Heap
write h p v q = if p == q then v else h q
