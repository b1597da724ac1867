-- ===== src/Gc/MemoryDigraph.antt =====
-- 3FD/gc_memorydigraph.h, 3FD/gc_memorydigraph.cpp: the graph of the memory blocks and the smart
-- pointers. An element of the hash table is referred to by its index, a vertex by its place.
pub mod Failures
pub mod Collection
pub mod References
mod Examples
use fd.Base.{
  ℕ, ◌+◌, Bool, true, false, not, ◌||◌, Option, none, some, List, [], ◌∷◌, Run, ok, stop, ◌>>=◌,
  ◌>>◌, assert, ◌==◌, if◌then◌else◌, get_or, set,
}
use fd.Gc.ArrayOfEdges.{Allocator}
use fd.Gc.AddressesHashTable.{
  Element, AddressesHashTable, Settings, vacant, is_root, set_pointed_mem_block, insert, lookup,
  remove_element,
}
use fd.Gc.Vertex.{
  Vertex, read, write, has_any_edges, are_repr_obj_resources_released, release_repr_obj_resources,
  increment_outgoing_edge_count, decrement_outgoing_edge_count, receive_edge_from_root,
  receive_edge_from_regular, remove_edge_from_root, remove_edge_from_regular,
}
use fd.Gc.Reachability.{is_reachable}
use fd.Gc.VertexStore.{
  VertexStore, Surroundings, delete_vertex, get_vertex, get_container_vertex, add_vertex,
  remove_vertex, shrink_pool,
}

-- A call of the callback of a vertex: which callback, the block, and whether to destroy the object.
pub record Released : Type 0 where
  pub callback : ℕ
  pub block : ℕ
  pub destroys : Bool

-- `released` keeps the calls of the callbacks, the latest first.
pub record MemoryDigraph : Type 0 where
  pub sptr_objects : AddressesHashTable
  pub store : VertexStore
  pub released : List Released

-- What is outside, the allocations of the arrays of edges, and the fuel of the search.
pub record Environment : Type 0 where
  pub around : Surroundings
  pub settings : Settings
  pub alloc : Allocator
  pub fuel : ℕ

unfoldable pub element_at : MemoryDigraph → ℕ → Element
element_at g idx = get_or g.sptr_objects.buckets idx vacant

unfoldable pub set_pointed : MemoryDigraph → ℕ → ℕ → MemoryDigraph
unfolding element_at set_pointed_mem_block
set_pointed g idx p = record g {
  sptr_objects = record g.sptr_objects {
    buckets = set g.sptr_objects.buckets idx (set_pointed_mem_block (element_at g idx) p);
  };
}

-- A call of a method through `p->`.
unfoldable pub update : MemoryDigraph → ℕ → (Vertex → Run Vertex) → Run MemoryDigraph
update g p method = do
  v ← read g.store.heap p
  v' ← method v
  ok (record g { store = record g.store { heap = write g.store.heap p (some v') } })

unfoldable pub delete : Allocator → MemoryDigraph → ℕ → Run MemoryDigraph
delete alloc g p = do s ← delete_vertex alloc g.store p; ok (record g { store = s })

-- `if (!p->HasAnyEdges()) delete p;`
unfoldable pub delete_isolated : Allocator → MemoryDigraph → ℕ → Vertex → Run MemoryDigraph
unfolding delete
delete_isolated alloc g p v = if has_any_edges v then ok g else delete alloc g p

module _ (env : Environment) where
  unfoldable pub shrink_vertex_pool : MemoryDigraph → Run MemoryDigraph
  shrink_vertex_pool g = do s ← shrink_pool g.store; ok (record g { store = s })

  -- `MakeReference(Element &, Vertex *)`
  unfoldable pub make_reference_to : MemoryDigraph → ℕ → ℕ → Run MemoryDigraph
  unfolding set_pointed update
  make_reference_to g idx p =
      let e = element_at g idx in
      if is_root e
      then update (set_pointed g idx p) p
          (λ v. receive_edge_from_root env.alloc v e.sptr_object_addr)
      else (do
        g1 ←
            update (set_pointed g idx p) e.container_mem_block
              (λ v. ok (increment_outgoing_edge_count v))
        update g1 p (λ v. receive_edge_from_regular env.alloc v e.container_mem_block))

  -- `MakeReference(Element &, void *)`
  unfoldable pub make_reference : MemoryDigraph → ℕ → ℕ → Run MemoryDigraph
  unfolding make_reference_to
  make_reference g idx pointed_addr = do
    assert (not (get_vertex env.around g.store pointed_addr == 0))
    make_reference_to g idx (get_vertex env.around g.store pointed_addr)

  -- The part of `UnmakeReference` that takes the edge away from the vertices it joins.
  unfoldable pub remove_reference : MemoryDigraph → Element → ℕ → Run MemoryDigraph
  unfolding update delete_isolated
  remove_reference g e receiving =
      if is_root e
      then update g receiving (λ v. remove_edge_from_root env.alloc v e.sptr_object_addr)
      else (do
        g1 ← update g e.container_mem_block (λ v. ok (decrement_outgoing_edge_count v))
        g2 ← update g1 receiving (λ v. remove_edge_from_regular env.alloc v e.container_mem_block)
        originator ← read g2.store.heap e.container_mem_block
        assert (has_any_edges originator || are_repr_obj_resources_released originator)
        delete_isolated env.alloc g2 e.container_mem_block originator)

  -- The part that releases a memory block which is not reachable any more.
  unfoldable pub release_block : MemoryDigraph → ℕ → Bool → Run MemoryDigraph
  unfolding delete_isolated
  release_block g receiving allow_dtion = do
    s ← remove_vertex env.around g.store receiving
    v ← read s.heap receiving
    (v', block) ← release_repr_obj_resources v
    let g' : MemoryDigraph = record g {
      store = record s { heap = write s.heap receiving (some v') };
      released =
          record { callback = v.free_callback; block = block; destroys = allow_dtion } ∷ g.released;
    }
    delete_isolated env.alloc g' receiving v'

  -- The part that follows on the removal of the edge.
  unfoldable pub collect : MemoryDigraph → ℕ → Bool → Run MemoryDigraph
  unfolding delete_isolated release_block
  collect g receiving allow_dtion = do
    v ← read g.store.heap receiving
    if are_repr_obj_resources_released v then delete_isolated env.alloc g receiving v else (do
      (reachable, h) ← is_reachable env.fuel g.store.heap receiving
      let g' : MemoryDigraph = record g { store = record g.store { heap = h } }
      if reachable then ok g' else release_block g' receiving allow_dtion)

  unfoldable pub unmake_reference : MemoryDigraph → ℕ → Bool → Run MemoryDigraph
  unfolding set_pointed remove_reference collect element_at
  unmake_reference g idx allow_dtion =
      let e = element_at g idx in
      if e.pointed_mem_block == 0 then ok (set_pointed g idx 0) else (do
        g' ← remove_reference (set_pointed g idx 0) e e.pointed_mem_block
        collect g' e.pointed_mem_block allow_dtion)

  unfoldable pub add_regular_vertex : MemoryDigraph → ℕ → ℕ → ℕ → Run MemoryDigraph
  add_regular_vertex g mem_addr block_size free_callback = do
    s ← add_vertex env.around g.store mem_addr block_size free_callback
    ok (record g { store = s })

  -- `m_sptrObjects.Insert(pointerAddr, nullptr, containerMemBlock)`
  unfoldable pub register : MemoryDigraph → ℕ → Run (ℕ × MemoryDigraph)
  register g pointer_addr = do
    container ← get_container_vertex env.around g.store pointer_addr
    (idx, t) ← insert env.settings g.sptr_objects pointer_addr 0 container
    ok (idx, record g { sptr_objects = t })

  unfoldable pub add_pointer : MemoryDigraph → ℕ → ℕ → Run MemoryDigraph
  unfolding register make_reference
  add_pointer g pointer_addr pointed_addr = do
    (idx, g') ← register g pointer_addr
    if pointed_addr == 0 then ok g' else make_reference g' idx pointed_addr

  unfoldable pub add_pointer_on_copy : MemoryDigraph → ℕ → ℕ → Run MemoryDigraph
  unfolding register make_reference_to element_at
  add_pointer_on_copy g left_pointer_addr right_pointer_addr = do
    (left, g') ← register g left_pointer_addr
    right ← lookup g'.sptr_objects right_pointer_addr
    let receiving : ℕ = (element_at g' right).pointed_mem_block
    if receiving == 0 then ok g' else make_reference_to g' left receiving

  -- `ResetPointer` to a new object
  unfoldable pub reset_pointer : MemoryDigraph → ℕ → ℕ → Bool → Run MemoryDigraph
  unfolding unmake_reference make_reference
  reset_pointer g pointer_addr new_pointed_addr allow_dtion = do
    idx ← lookup g.sptr_objects pointer_addr
    g' ← unmake_reference g idx allow_dtion
    if new_pointed_addr == 0 then ok g' else make_reference g' idx new_pointed_addr

  -- `ResetPointer` to the object of another pointer
  unfoldable pub reset_pointer_as : MemoryDigraph → ℕ → ℕ → Run MemoryDigraph
  unfolding unmake_reference make_reference_to element_at
  reset_pointer_as g pointer_addr other_pointer_addr = do
    left ← lookup g.sptr_objects pointer_addr
    right ← lookup g.sptr_objects other_pointer_addr
    let newly_pointed : ℕ = (element_at g right).pointed_mem_block
    g' ← unmake_reference g left true
    if newly_pointed == 0 then ok g' else make_reference_to g' left newly_pointed

  unfoldable pub release_pointer : MemoryDigraph → ℕ → Run MemoryDigraph
  unfolding unmake_reference
  release_pointer g pointer_addr = do
    idx ← lookup g.sptr_objects pointer_addr
    unmake_reference g idx true

  unfoldable pub remove_pointer : MemoryDigraph → ℕ → Run MemoryDigraph
  unfolding unmake_reference
  remove_pointer g pointer_addr = do
    idx ← lookup g.sptr_objects pointer_addr
    g' ← unmake_reference g idx true
    t ← remove_element env.settings g'.sptr_objects idx
    ok (record g' { sptr_objects = t })
