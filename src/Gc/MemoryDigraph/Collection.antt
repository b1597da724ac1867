-- ===== src/Gc/MemoryDigraph/Collection.antt =====
-- When a memory block is released (3FD/gc_memorydigraph.cpp, `UnmakeReference`).
use fd.Base.{
  ℕ, ◌≡◌, ◌↔◌, refl, Bool, true, false, some, none, List, ◌∷◌, ok, if◌then◌else◌, ◌<◌, ◌≤◌, count,
  Bool-cases, inl, inr,
}
use fd.Gc.ArrayOfEdges.{returned, clear}
use fd.Gc.MemAddress.{get}
use fd.Gc.Vertex.{
  Vertex, Heap, write, is_marked, has_any_edges, are_repr_obj_resources_released,
  release_repr_obj_resources,
}
use fd.Gc.Reachability.Marks.{read-some}
use fd.Gc.Reachability.Rooted.{AllRooted}
use fd.Gc.Reachability.Correct.{IsClosed, unmarked_count, is_reachable_iff}
use fd.Gc.VertexStore.{block_address, remove_vertex}
use fd.Gc.MemoryDigraph.{
  MemoryDigraph, Environment, collect, release_block, delete_isolated, delete,
}
use fd.Gc.MemoryDigraph.Failures.{delete_vertex_lem}
use fd.Gc.MemoryDigraph.References.{write_self}
use fd.Utils.DynamicMemPool.{DynamicMemPool, give_back}

-- The graph once the block of the vertex `p`, the element `i` of the set, was handed to its
-- callback: the vertex has no address any more, or is deleted when it has no edges.
abbrev pub after_release :
    Environment → MemoryDigraph → ℕ → ℕ → Vertex → DynamicMemPool → Bool → MemoryDigraph
after_release env g i p v pool' destroys =
    let emptied : Heap = write g.store.heap p (some (record v { address = 0 })) in
    record g {
      store = record {
        heap = if has_any_edges v then emptied else write emptied p none;
        pool = if has_any_edges v then g.store.pool else pool';
        vertices = env.around.ordered.erase i g.store.vertices;
      };
      released =
          record { callback = v.free_callback; block = get v.address; destroys = destroys }
          ∷ g.released;
    }

remove_vertex_lem :
    (env : Environment) (g : MemoryDigraph) (p i : ℕ) (v : Vertex)
    → g.store.heap p ≡ some v
    → env.around.ordered.find
        (block_address g.store.heap)
        (block_address g.store.heap p)
        g.store.vertices
      ≡ some i
    → remove_vertex env.around g.store p
      ≡ ok (record g.store { vertices = env.around.ordered.erase i g.store.vertices })
unfolding remove_vertex
remove_vertex_lem env g p i v at found = rw (read-some g.store.heap p v at, found) refl

release_repr_obj_resources_lem :
    (v : Vertex)
    → are_repr_obj_resources_released v ≡ false
    → release_repr_obj_resources v ≡ ok (record v { address = 0 }, get v.address)
unfolding release_repr_obj_resources are_repr_obj_resources_released
release_repr_obj_resources_lem v live = rw (live) refl

release_block_lem :
    (env : Environment) (g : MemoryDigraph) (p i : ℕ) (v : Vertex) (pool' : DynamicMemPool)
    (allow_dtion : Bool)
    → g.store.heap p ≡ some v
    → are_repr_obj_resources_released v ≡ false
    → env.around.ordered.find
        (block_address g.store.heap)
        (block_address g.store.heap p)
        g.store.vertices
      ≡ some i
    → (clear env.alloc v.incoming).0 ≡ returned
    → give_back g.store.pool p ≡ ok pool'
    → release_block env g p allow_dtion ≡ ok (after_release env g i p v pool' allow_dtion)
unfolding release_block delete_isolated delete has_any_edges
release_block_lem env g p i v pool' allow_dtion at live found cleared given =
    let w : Vertex = record v { address = 0 } in
    let emptied : Heap = write g.store.heap p (some w) in
    let taken = remove_vertex_lem env g p i v at found in
    let freed = release_repr_obj_resources_lem v live in
    elim (Bool-cases (has_any_edges v)) [
      | inl kept ↦ rw (taken, read-some g.store.heap p v at, freed, kept) refl
      | inr isolated ↦
          let gone =
            delete_vertex_lem env.alloc
              (record {
                heap = emptied;
                pool = g.store.pool;
                vertices = env.around.ordered.erase i g.store.vertices;
              })
              p w pool' (write_self g.store.heap p (some w)) cleared given in
          rw (taken, read-some g.store.heap p v at, freed, isolated, gone) refl
    ]

-- After an edge to `p` was removed, whose block was not released before, `UnmakeReference` leaves
-- all as it is when every backward walk from `p` through open vertices comes to a vertex with a root
-- edge. Otherwise it calls the callback of `p` once, with the block's address and
-- `allow_dtion`, takes `p` out of the ordered set, clears its address, and deletes it if it has no
-- edges. The graph is closed, `p` is unmarked and found by the set, its array can be cleared and its
-- memory given back, and the fuel is enough for every unmarked vertex.
pub collect-releases :
    (env : Environment) (g : MemoryDigraph) (ds : List ℕ) (p i : ℕ) (v : Vertex)
    (pool' : DynamicMemPool) (allow_dtion : Bool)
    → IsClosed g.store.heap ds
    → g.store.heap p ≡ some v
    → is_marked v ≡ false
    → are_repr_obj_resources_released v ≡ false
    → 0 < count p ds
    → unmarked_count g.store.heap ds ≤ env.fuel
    → env.around.ordered.find
        (block_address g.store.heap)
        (block_address g.store.heap p)
        g.store.vertices
      ≡ some i
    → (clear env.alloc v.incoming).0 ≡ returned
    → give_back g.store.pool p ≡ ok pool'
    → (b : Bool) × ((b ≡ true) ↔ ((n : ℕ) × AllRooted n g.store.heap p))
      × (collect env g p allow_dtion
          ≡ ok (if b then g else after_release env g i p v pool' allow_dtion))
unfolding collect
collect-releases env g ds p i v pool' allow_dtion closed at clear_mark live there enough found
      cleared given =
    let (b, run, iff) =
      is_reachable_iff env.fuel g.store.heap ds p v closed at clear_mark there enough in
    let freed = release_block_lem env g p i v pool' allow_dtion at live found cleared given in
    elim (Bool-cases b) [
      | inl kept ↦ (b, iff, rw (read-some g.store.heap p v at, live, run, kept) refl)
      | inr lost ↦ (b, iff, rw (read-some g.store.heap p v at, live, run, lost) freed)
    ]
