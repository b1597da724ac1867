-- ===== src/Gc/MemoryDigraph/References.antt =====
-- What `MakeReference` of 3FD/gc_memorydigraph.cpp does to the vertices that it joins.
use fd.Base.{
  ℕ, ◌+◌, ◌≡◌, ◌⊎◌, inl, inr, refl, true, false, Option, some, List, ◌∷◌, Run, ok, stop, bad_alloc,
  Returns, arith, ◌<◌, ◌^◌, ◌%◌, length, ==_self, ◌==◌,
}
use fd.Gc.ArrayOfEdges.{Allocator, Status, returned, thrown, ArrayOfEdges}
use fd.Gc.ArrayOfEdges.Contract.{Models, Adds, add_root_edge-Adds, add_regular_edge-Adds}
use fd.Gc.AddressesHashTable.{is_root}
use fd.Gc.Vertex.{
  Vertex, Heap, write, receive_edge_from_root, receive_edge_from_regular, on_incoming,
  increment_outgoing_edge_count,
}
use fd.Gc.Reachability.Marks.{read-some}
use fd.Gc.MemoryDigraph.{
  MemoryDigraph, Environment, make_reference_to, element_at, set_pointed, update,
}

pub write_self : (h : Heap) (p : ℕ) (o : Option Vertex) → write h p o p ≡ o
unfolding write
write_self h p o = rw (==_self p) refl

pub write-other : (h : Heap) (p q : ℕ) (o : Option Vertex) → p == q ≡ false → write h p o q ≡ h q
unfolding write
write-other h p q o apart = rw (apart) refl

-- What an operation that adds an edge to the vertex gives: the exception, or the vertex with the
-- new bags.
abbrev Receives : Vertex → List ℕ → List ℕ → Run Vertex → Type 0
Receives v roots regulars run =
    (run ≡ stop bad_alloc)
    ⊎ ((a : ArrayOfEdges) × (run ≡ ok (record v { incoming = a })) × Models a roots regulars)

receive_lem :
    (v : Vertex) (roots regulars : List ℕ) (result : Status × ArrayOfEdges)
    → Adds v.incoming roots regulars result
    → Receives v roots regulars (on_incoming v (ok result))
unfolding on_incoming
receive_lem v roots regulars (returned, a) m = inr (a, refl, m)
receive_lem v roots regulars (thrown, a) m = inl refl

module _ (alloc : Allocator) (v : Vertex) (u : ℕ) (roots regulars : List ℕ)
    (m : Models v.incoming roots regulars) (small : v.incoming.capacity < 2 ^ 31) where
  receive_root_lem :
      length roots + 2 < 2 ^ 32 → Receives v (u ∷ roots) regulars (receive_edge_from_root alloc v u)
  unfolding receive_edge_from_root
  receive_root_lem word =
      let (r, run, adds) = add_root_edge-Adds alloc v.incoming roots regulars u m small word in
      rw (run) (receive_lem v (u ∷ roots) regulars r adds)

  receive_regular_lem : Receives v roots (u ∷ regulars) (receive_edge_from_regular alloc v u)
  unfolding receive_edge_from_regular
  receive_regular_lem =
      let (r, run, adds) = add_regular_edge-Adds alloc v.incoming roots regulars u m small in
      rw (run) (receive_lem v roots (u ∷ regulars) r adds)

-- The vertex at `p` is `v` with other incoming edges, those of the bags.
abbrev pub HasEdges : Heap → ℕ → Vertex → List ℕ → List ℕ → Type 0
HasEdges h p v roots regulars =
    (a : ArrayOfEdges) × (h p ≡ some (record v { incoming = a })) × Models a roots regulars

-- `MakeReference` of a root pointer to the vertex `p`, whose array models two bags with room for
-- one more edge: `std::bad_alloc` is thrown, or the pointer is a root edge of `p` more, `p` is
-- otherwise the same, and so are all other vertices.
pub make_reference_to-root :
    (env : Environment) (g : MemoryDigraph) (idx p : ℕ) (v : Vertex) (roots regulars : List ℕ)
    → is_root (element_at g idx) ≡ true
    → g.store.heap p ≡ some v
    → Models v.incoming roots regulars
    → v.incoming.capacity < 2 ^ 31
    → length roots + 2 < 2 ^ 32
    → (make_reference_to env g idx p ≡ stop bad_alloc)
      ⊎ Returns (make_reference_to env g idx p) λ g'.
        HasEdges g'.store.heap p v ((element_at g idx).sptr_object_addr ∷ roots) regulars
        × ((q : ℕ) → p == q ≡ false → g'.store.heap q ≡ g.store.heap q)
unfolding make_reference_to update set_pointed
make_reference_to-root env g idx p v roots regulars root at m small word =
    let key : ℕ = (element_at g idx).sptr_object_addr in
    let found = read-some g.store.heap p v at in
    elim (receive_root_lem env.alloc v key roots regulars m small word) [
      | inl failed ↦ inl (rw (root, found, failed) refl)
      | inr (a, run, m') ↦
          let w : Vertex = record v { incoming = a } in
          inr (
            record (set_pointed g idx p) {
              store = record g.store { heap = write g.store.heap p (some w) };
            },
            rw (root, found, run) refl,
            (
              (a, write_self g.store.heap p (some w), m'),
              λ q apart. write-other g.store.heap p q (some w) apart,
            ),
          )
    ]

-- `MakeReference` of a pointer inside the block of the vertex `c` to another vertex `p`, whose
-- array models two bags and has a capacity below 2 ^ 31: `std::bad_alloc` is thrown, or `c` is a
-- regular edge of `p` more, the count of outgoing edges of `c` is one higher (in 32 bits), and all
-- other vertices are the same.
pub make_reference_to-regular :
    (env : Environment) (g : MemoryDigraph) (idx p c : ℕ) (u v : Vertex) (roots regulars : List ℕ)
    → is_root (element_at g idx) ≡ false
    → (element_at g idx).container_mem_block ≡ c
    → c == p ≡ false
    → g.store.heap c ≡ some u
    → g.store.heap p ≡ some v
    → Models v.incoming roots regulars
    → v.incoming.capacity < 2 ^ 31
    → (make_reference_to env g idx p ≡ stop bad_alloc)
      ⊎ Returns (make_reference_to env g idx p) λ g'.
        HasEdges g'.store.heap p v roots (c ∷ regulars)
        × (g'.store.heap c ≡ some (record u { out_edge_count = (u.out_edge_count + 1) % 2 ^ 32 }))
        × ((q : ℕ) → p == q ≡ false → c == q ≡ false → g'.store.heap q ≡ g.store.heap q)
unfolding make_reference_to update set_pointed increment_outgoing_edge_count
make_reference_to-regular env g idx p c u v roots regulars inner at_c apart found_u found_v m
      small =
    let u' : Vertex = record u { out_edge_count = (u.out_edge_count + 1) % 2 ^ 32 } in
    let h : Heap = write g.store.heap c (some u') in
    let still : h p ≡ some v = rw (write-other g.store.heap c p (some u') apart) found_v in
    let back : p == c ≡ false = ground (arith, apart) in
    let first = read-some g.store.heap c u found_u in
    let second = read-some h p v still in
    elim (receive_regular_lem env.alloc v c roots regulars m small) [
      | inl failed ↦ inl (rw (inner, at_c, first, second, failed) refl)
      | inr (a, run, m') ↦
          let w : Vertex = record v { incoming = a } in
          inr (
            record (set_pointed g idx p) { store = record g.store { heap = write h p (some w) } },
            rw (inner, at_c, first, second, run) refl,
            (
              (a, write_self h p (some w), m'),
              rw (write-other h p c (some w) back) (write_self g.store.heap c (some u')),
              λ q not_p not_c.
                  rw (write-other h p q (some w) not_p)
                    (write-other g.store.heap c q (some u') not_c),
            ),
          )
    ]
