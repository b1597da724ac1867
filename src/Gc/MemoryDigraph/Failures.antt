-- ===== src/Gc/MemoryDigraph/Failures.antt =====
-- A pointer inside the block that it points to (3FD/gc_memorydigraph.cpp, `UnmakeReference`).
use fd.Base.{ℕ, ◌≡◌, refl, Bool, true, false, none, some, ok, stop, use_after_free, ◌==◌}
use fd.Gc.ArrayOfEdges.{Allocator, returned, clear}
use fd.Gc.AddressesHashTable.{is_root}
use fd.Gc.Vertex.{
  Vertex, Heap, read, write, has_any_edges, are_repr_obj_resources_released,
  remove_edge_from_regular, decrement_outgoing_edge_count,
}
use fd.Gc.Reachability.Marks.{read-some}
use fd.Gc.VertexStore.{VertexStore, delete_vertex, destroy}
use fd.Gc.MemoryDigraph.{
  MemoryDigraph, Environment, unmake_reference, remove_reference, collect, element_at, set_pointed,
  update, delete_isolated, delete,
}
use fd.Gc.MemoryDigraph.References.{write_self}
use fd.Utils.DynamicMemPool.{DynamicMemPool, give_back}

read-none : (h : Heap) (p : ℕ) → h p ≡ none → read h p ≡ stop use_after_free
unfolding read
read-none h p e = rw (e, read) refl

pub delete_vertex_lem :
    (alloc : Allocator) (s : VertexStore) (p : ℕ) (w : Vertex) (pool' : DynamicMemPool)
    → s.heap p ≡ some w
    → (clear alloc w.incoming).0 ≡ returned
    → give_back s.pool p ≡ ok pool'
    → delete_vertex alloc s p ≡ ok (record s { heap = write s.heap p none; pool = pool' })
unfolding delete_vertex destroy
delete_vertex_lem alloc s p w pool' at cleared given =
    rw (read-some s.heap p w at, cleared, destroy, given) refl

-- When a pointer stands in the block of the vertex `p` that it points to, that block is released,
-- the edge is the last of the vertex, and it can be taken out and the memory of the vertex given
-- back, then `UnmakeReference` deletes the vertex as the originator, and goes on to read it as the
-- receiver.
pub unmake_reference_self :
    (env : Environment) (g : MemoryDigraph) (idx p : ℕ) (v w : Vertex) (pool' : DynamicMemPool)
    (allow_dtion : Bool)
    → p == 0 ≡ false
    → (element_at g idx).container_mem_block ≡ p
    → (element_at g idx).pointed_mem_block ≡ p
    → g.store.heap p ≡ some v
    → remove_edge_from_regular env.alloc (decrement_outgoing_edge_count v) p ≡ ok w
    → has_any_edges w ≡ false
    → are_repr_obj_resources_released w ≡ true
    → (clear env.alloc w.incoming).0 ≡ returned
    → give_back g.store.pool p ≡ ok pool'
    → unmake_reference env g idx allow_dtion ≡ stop use_after_free
unfolding unmake_reference remove_reference collect set_pointed update delete_isolated delete
    is_root
unmake_reference_self env g idx p v w pool' allow_dtion not_null inside points at removed isolated
      gone cleared given =
    let dec : Vertex = decrement_outgoing_edge_count v in
    let h1 : Heap = write g.store.heap p (some dec) in
    let h2 : Heap = write h1 p (some w) in
    let h3 : Heap = write h2 p none in
    let r1 = read-some h1 p dec (write_self g.store.heap p (some dec)) in
    let r2 = read-some h2 p w (write_self h1 p (some w)) in
    let gives =
      delete_vertex_lem env.alloc (record g.store { heap = h2 }) p w pool'
        (write_self h1 p (some w)) cleared given in
    let r3 : read h3 p ≡ stop use_after_free = read-none h3 p (write_self h2 p none) in
    rw
      (
        inside,
        points,
        not_null,
        read-some g.store.heap p v at,
        r1,
        removed,
        r2,
        isolated,
        gone,
        gives,
        r3,
      )
      refl
