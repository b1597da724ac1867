-- ===== src/Gc/MemoryDigraph/Examples.antt =====
-- A graph of 3FD/gc_memorydigraph.cpp with three vertices, one of them released and pointing to itself.
use fd.Base.{
  ℕ, ◌*◌, ◌≡◌, ◌↔◌, ◌⊎◌, inl, inr, refl, Bool, true, false, none, some, List, [], ◌∷◌, ok, stop,
  bad_alloc, use_after_free, Returns, ◌==◌, if◌then◌else◌, arith, ◌<◌, Bool-cases, ltb, zero, suc,
}
use fd.Gc.ArrayOfEdges.{
  ArrayOfEdges, has_root_edges, clear, search_edge, drop_last, shift_down, evaluate_shrink_capacity,
  remove_regular_edge,
}
use fd.Gc.ArrayOfEdges.Contract.{Models}
use fd.Gc.AddressesHashTable.{Element, vacant, is_root}
use fd.Gc.Vertex.{
  Vertex, Heap, is_marked, are_repr_obj_resources_released, has_any_edges, remove_edge_from_regular,
  decrement_outgoing_edge_count, on_incoming,
}
use fd.Gc.Reachability.Marks.{has_root, edges_in}
use fd.Gc.Reachability.Rooted.{AllRooted}
use fd.Gc.Reachability.Correct.{IsClosed, unmarked_count, is_clear}
use fd.Gc.MemoryDigraph.{
  MemoryDigraph, Environment, collect, make_reference_to, unmake_reference, element_at,
}
use fd.Gc.MemoryDigraph.Collection.{after_release, collect-releases}
use fd.Gc.VertexStore.{block_address}
use fd.Gc.MemoryDigraph.References.{HasEdges, make_reference_to-root, make_reference_to-regular}
use fd.Gc.MemoryDigraph.Failures.{unmake_reference_self}
use fd.Utils.MemoryPool.{MemoryPool, contains, return_block, is_empty}
use fd.Utils.DynamicMemPool.{DynamicMemPool, give_back, last_before, set_pool}

abbrev array : List ℕ → ℕ → ArrayOfEdges
array es roots = record { edges = es; capacity = 4; root_count = roots; room = 4 }

abbrev vertex : ℕ → List ℕ → ℕ → ℕ → Vertex
vertex addr es roots out = record {
  address = addr;
  incoming = array es roots;
  free_callback = 7;
  block_size = 16;
  out_edge_count = out;
}

-- The block at 0x100 has the root edge of the pointer 90, and points to the block at 0x200. The
-- third vertex has a released block, and an edge from itself.
abbrev heap : Heap
heap p =
    if p == 40
    then some (vertex 0x100 (90 ∷ []) 1 1)
    else if p == 80
    then some (vertex 0x200 (40 ∷ []) 0 0)
    else if p == 120
    then some (vertex 0 (120 ∷ []) 0 1)
    else none

abbrev blocks : MemoryPool
blocks = record { base = 40; next = 200; end = 200; block_size = 40; available = [] }

abbrev element : ℕ → ℕ → ℕ → Element
element key pointed container = record {
  sptr_object_addr = key;
  pointed_mem_block = pointed;
  container_mem_block = container;
}

abbrev graph : MemoryDigraph
graph = record {
  sptr_objects = record {
    buckets = element 90 40 0 ∷ element 0x208 0 80 ∷ element 0x308 120 120 ∷ vacant ∷ [];
    elements_count = 3;
    out_hash_size_in_bits = 2;
  };
  store = record {
    heap = heap;
    pool = record {
      initial_size = 4;
      block_size = 40;
      pools = (40, blocks) ∷ [];
      available_pools = 40 ∷ [];
    };
    vertices = 40 ∷ 80 ∷ [];
  };
  released = [];
}

abbrev env : Environment
env = record {
  around = record {
    ordered = record {
      find = λ key k xs. none;
      lower_bound = λ key k xs. 0;
      insert = λ key p xs. (true, p ∷ xs);
      erase = λ i xs. xs;
    };
    chunk = λ d. none;
    grown = 8;
  };
  settings = record {
    initial_size_log2 = 2;
    exceeds = λ c n. ltb (3 * n) (4 * c);
    falls_below = λ c n. ltb (4 * c) n;
  };
  alloc = λ n. true;
  fuel = 3;
}

heap-IsClosed : IsClosed heap (40 ∷ 80 ∷ 120 ∷ [])
unfolding has_root_edges
heap-IsClosed p v found no_root = elim (Bool-cases (p == 40)) [
  | inl one ↦
      let f = rw one at found in
      let e : v ≡ vertex 0x100 (90 ∷ []) 1 1 = cc in let bare = rw e at no_root in cc
  | inr not_one ↦ elim (Bool-cases (p == 80)) [
    | inl two ↦
        let f = rw (not_one, two) at found in
        let e : v ≡ vertex 0x200 (40 ∷ []) 0 0 = cc in rw e ((omega arith, (_, refl)), tt)
    | inr not_two ↦ elim (Bool-cases (p == 120)) [
      | inl three ↦
          let f = rw (not_one, not_two, three) at found in
          let e : v ≡ vertex 0 (120 ∷ []) 0 1 = cc in rw e ((omega arith, (_, refl)), tt)
      | inr not_three ↦ let f = rw (not_one, not_two, not_three) at found in cc
    ]
  ]
]

heap_unmarked : unmarked_count heap (40 ∷ 80 ∷ 120 ∷ []) < 4
unfolding unmarked_count is_clear is_marked
heap_unmarked = omega arith

-- The same graph when the first block has lost its root edge: the second one hangs on nothing.
abbrev unrooted : Heap
unrooted p =
    if p == 40
    then some (vertex 0x100 [] 0 1)
    else if p == 80
    then some (vertex 0x200 (40 ∷ []) 0 0)
    else none

abbrev lost : MemoryDigraph
lost = record graph { store = record graph.store { heap = unrooted } }

-- The set finds the second vertex, and takes it out.
abbrev finding : Environment
finding = record env {
  around = record env.around {
    ordered = record env.around.ordered {
      find = λ key k xs. if k == 0x200 then some 1 else some 0;
      erase = λ i xs. if i == 1 then 40 ∷ [] else 80 ∷ [];
    };
  };
}

abbrev given_back : DynamicMemPool
given_back = record {
  initial_size = 4;
  block_size = 40;
  pools = (40, record blocks { available = 1 ∷ [] }) ∷ [];
  available_pools = 40 ∷ [];
}

unrooted-IsClosed : IsClosed unrooted (40 ∷ 80 ∷ [])
unfolding has_root_edges
unrooted-IsClosed p v found no_root = elim (Bool-cases (p == 40)) [
  | inl one ↦ let f = rw one at found in let e : v ≡ vertex 0x100 [] 0 1 = cc in rw e tt
  | inr not_one ↦ elim (Bool-cases (p == 80)) [
    | inl two ↦
        let f = rw (not_one, two) at found in
        let e : v ≡ vertex 0x200 (40 ∷ []) 0 0 = cc in rw e ((omega arith, (_, refl)), tt)
    | inr not_two ↦ let f = rw (not_one, not_two) at found in cc
  ]
]

unrooted_unmarked : unmarked_count unrooted (40 ∷ 80 ∷ []) < 4
unfolding unmarked_count is_clear is_marked
unrooted_unmarked = omega arith

collect-releases_example :
    (b : Bool) × ((b ≡ true) ↔ ((n : ℕ) × AllRooted n unrooted 80))
    × (collect finding lost 80 true
        ≡ ok (
            if b
            then lost
            else after_release finding lost 1 80 (vertex 0x200 (40 ∷ []) 0 0) given_back true))
unfolding is_marked are_repr_obj_resources_released clear give_back last_before contains
    return_block is_empty set_pool block_address evaluate_shrink_capacity
collect-releases_example =
    collect-releases finding lost (40 ∷ 80 ∷ []) 80 1 (vertex 0x200 (40 ∷ []) 0 0) given_back true
      unrooted-IsClosed refl refl refl (omega arith) (omega (arith, unrooted_unmarked)) refl refl
      refl

first_unrooted : (n : ℕ) → AllRooted n unrooted 40 → ⊥
unfolding has_root_edges has_root edges_in
first_unrooted zero r = let e : false ≡ true = r in absurd cc
first_unrooted (suc n) (inl r) = let e : false ≡ true = r in absurd cc
first_unrooted (suc n) (inr (some_edge, all)) = omega arith

second_unrooted : (n : ℕ) → AllRooted n unrooted 80 → ⊥
unfolding has_root_edges has_root edges_in
second_unrooted zero r = let e : false ≡ true = r in absurd cc
second_unrooted (suc n) (inl r) = let e : false ≡ true = r in absurd cc
second_unrooted (suc n) (inr (some_edge, all)) = first_unrooted n all.0.1

-- The search finds no root, and the callback is called.
lost_runs :
    collect finding lost 80 true
    ≡ ok (after_release finding lost 1 80 (vertex 0x200 (40 ∷ []) 0 0) given_back true)
unfolding is_marked are_repr_obj_resources_released clear give_back last_before contains
    return_block is_empty set_pool block_address evaluate_shrink_capacity
lost_runs =
    let (b, iff, run) =
      collect-releases finding lost (40 ∷ 80 ∷ []) 80 1 (vertex 0x200 (40 ∷ []) 0 0) given_back true
        unrooted-IsClosed refl refl refl (omega arith) (omega (arith, unrooted_unmarked)) refl refl
        refl in
    elim (Bool-cases b) [
      | inl yes_rooted ↦ let (n, r) = iff.0 yes_rooted in absurd (second_unrooted n r)
      | inr not_rooted ↦ rw not_rooted at run
    ]

second-Models : Models (array (40 ∷ []) 0) [] (40 ∷ [])
second-Models = record {
  valid = record {
    sorted = omega arith;
    fits = omega arith;
    backed = omega arith;
    word = omega arith;
  };
  holds = λ x. omega arith;
  counted = refl;
  word = omega arith;
}

first-Models : Models (array (90 ∷ []) 1) (90 ∷ []) []
first-Models = record {
  valid = record {
    sorted = omega arith;
    fits = omega arith;
    backed = omega arith;
    word = omega arith;
  };
  holds = λ x. omega arith;
  counted = refl;
  word = omega arith;
}

make_reference_to-root_example :
    (make_reference_to env graph 0 80 ≡ stop bad_alloc)
    ⊎ Returns (make_reference_to env graph 0 80) λ g'.
      HasEdges g'.store.heap 80 (vertex 0x200 (40 ∷ []) 0 0) (90 ∷ []) (40 ∷ [])
      × ((q : ℕ) → 80 == q ≡ false → g'.store.heap q ≡ heap q)
unfolding element_at is_root
make_reference_to-root_example =
    make_reference_to-root env graph 0 80 (vertex 0x200 (40 ∷ []) 0 0) [] (40 ∷ []) refl refl
      second-Models (omega arith) (omega arith)

make_reference_to-regular_example :
    (make_reference_to env graph 1 40 ≡ stop bad_alloc)
    ⊎ Returns (make_reference_to env graph 1 40) λ g'.
      HasEdges g'.store.heap 40 (vertex 0x100 (90 ∷ []) 1 1) (90 ∷ []) (80 ∷ [])
      × (g'.store.heap 80 ≡ some (vertex 0x200 (40 ∷ []) 0 1))
      × ((q : ℕ) → 40 == q ≡ false → 80 == q ≡ false → g'.store.heap q ≡ heap q)
unfolding element_at is_root
make_reference_to-regular_example =
    make_reference_to-regular env graph 1 40 80 (vertex 0x200 (40 ∷ []) 0 0)
      (vertex 0x100 (90 ∷ []) 1 1) (90 ∷ []) [] refl refl refl refl refl first-Models (omega arith)

unmake_reference_self_example : unmake_reference env graph 2 true ≡ stop use_after_free
unfolding element_at remove_edge_from_regular has_any_edges are_repr_obj_resources_released clear
    give_back decrement_outgoing_edge_count on_incoming remove_regular_edge last_before contains
    return_block is_empty set_pool search_edge drop_last evaluate_shrink_capacity shift_down
unmake_reference_self_example =
    unmake_reference_self env graph 2 120 (vertex 0 (120 ∷ []) 0 1)
      (record {
        address = 0;
        incoming = record { edges = []; capacity = 2; root_count = 0; room = 2 };
        free_callback = 7;
        block_size = 16;
        out_edge_count = 0;
      })
      (record {
        initial_size = 4;
        block_size = 40;
        pools = (40, record blocks { available = 2 ∷ [] }) ∷ [];
        available_pools = 40 ∷ [];
      })
      true refl refl refl refl refl refl refl refl refl
