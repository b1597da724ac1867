-- ===== src/Gc/ArrayOfEdges/Contract.antt =====
-- `ArrayOfEdges` (3FD/gc_arrayofedges.cpp) seen as two bags: its root and its regular edges.
use fd.Base.{ℕ, ◌+◌, ◌^◌, ◌≡◌, true, List, [], ◌∷◌, arith, ◌<◌, length, count, Returns, ◌↔◌}
use fd.Gc.ArrayOfEdges.{
  ArrayOfEdges, Status, returned, thrown, Allocator, add_root_edge, add_regular_edge,
  remove_root_edge, remove_regular_edge, clear, has_root_edges, count_root, discount_root,
}
use fd.Gc.ArrayOfEdges.Invariant.{
  IsValid, Added, create_edge_impl-Added, Removed, remove_edge_impl-Removed,
  evaluate_shrink_capacity-IsValid,
}

-- The array holds exactly the edges of the two bags, and counts the root edges.
pub record Models (a : ArrayOfEdges) (roots regulars : List ℕ) : Type 0 where
  pub valid : IsValid a
  pub holds : (x : ℕ) → count x a.edges ≡ count x roots + count x regulars
  pub counted : a.root_count ≡ length roots
  pub word : length roots + 1 < 2 ^ 32

-- An operation that adds an edge: the new bags, or the old edges and the exception.
abbrev pub Adds : ArrayOfEdges → List ℕ → List ℕ → Status × ArrayOfEdges → Type 0
Adds a roots regulars (returned, b) = Models b roots regulars
Adds a roots regulars (thrown, b) = (b.edges ≡ a.edges) × (b.root_count ≡ a.root_count)

Adds-regular :
    (a : ArrayOfEdges) (roots regulars : List ℕ) (v : ℕ) (r : Status × ArrayOfEdges)
    → Models a roots regulars
    → Added a v r
    → Adds a roots (v ∷ regulars) r
Adds-regular a roots regulars v (returned, b) m (valid, counts, same, _) = record {
  valid = valid;
  holds = λ x. omega (arith, counts x, m.holds x);
  counted = omega (arith, m.counted);
  word = m.word;
}
Adds-regular a roots regulars v (thrown, b) m kept = kept

Adds-root :
    (a : ArrayOfEdges) (roots regulars : List ℕ) (v : ℕ) (r : Status × ArrayOfEdges)
    → Models a roots regulars
    → length roots + 2 < 2 ^ 32
    → Added a v r
    → Adds a (v ∷ roots) regulars (count_root r)
unfolding count_root
Adds-root a roots regulars v (returned, b) m word (valid, counts, same, _) = record {
  valid = record {
    sorted = valid.sorted;
    fits = valid.fits;
    backed = valid.backed;
    word = valid.word;
  };
  holds = λ x. omega (arith, counts x, m.holds x);
  counted = omega (arith, m.counted);
  word = omega arith;
}
Adds-root a roots regulars v (thrown, b) m word kept = kept

-- An operation that takes a root edge out. When the exception leaves it the edge is gone, and
-- the counter still counts it.
abbrev pub TakesRoot : List ℕ → List ℕ → Status × ArrayOfEdges → Type 0
TakesRoot roots regulars (returned, b) = Models b roots regulars
TakesRoot roots regulars (thrown, b) =
    IsValid b
    × ((x : ℕ) → count x b.edges ≡ count x roots + count x regulars)
    × (b.root_count ≡ length roots + 1)

TakesRoot-of_Removed :
    (a : ArrayOfEdges) (roots regulars : List ℕ) (v : ℕ) (r : Status × ArrayOfEdges)
    → Models a (v ∷ roots) regulars
    → Removed a v r
    → TakesRoot roots regulars (discount_root r)
unfolding discount_root
TakesRoot-of_Removed a roots regulars v (returned, b) m (valid, counts, same) = record {
  valid = record {
    sorted = valid.sorted;
    fits = valid.fits;
    backed = valid.backed;
    word = valid.word;
  };
  holds = λ x. omega (arith, counts x, m.holds x);
  counted = omega (arith, m.counted, m.word);
  word = omega (arith, m.word);
}
TakesRoot-of_Removed a roots regulars v (thrown, b) m (valid, counts, same) =
    (valid, (λ x. omega (arith, counts x, m.holds x)), omega (arith, m.counted))

module _ (alloc : Allocator) (a : ArrayOfEdges) (roots regulars : List ℕ) (v : ℕ) where
  -- `AddEdge(Vertex *)` ends, for an array that models two bags and has a capacity below 2 ^ 31: it
  -- puts the vertex into the bag of regular edges, or throws and keeps the edges and the count.
  pub add_regular_edge-Adds :
      Models a roots regulars
      → a.capacity < 2 ^ 31
      → Returns (add_regular_edge alloc a v) (Adds a roots (v ∷ regulars))
  unfolding add_regular_edge
  add_regular_edge-Adds m small =
      let (r, run, added) = create_edge_impl-Added alloc a v m.valid small in
      (r, run, Adds-regular a roots regulars v r m added)

  -- `AddEdge(void *)` ends, for an array that models two bags, has a capacity below 2 ^ 31 and room
  -- in the counter: it puts the pointer into the bag of root edges, or throws and keeps the edges
  -- and the count.
  pub add_root_edge-Adds :
      Models a roots regulars
      → a.capacity < 2 ^ 31
      → length roots + 2 < 2 ^ 32
      → Returns (add_root_edge alloc a v) (Adds a (v ∷ roots) regulars)
  unfolding add_root_edge
  add_root_edge-Adds m small word =
      let (r, run, added) = create_edge_impl-Added alloc a v m.valid small in
      (count_root r, rw run, Adds-root a roots regulars v r m word added)

  -- `RemoveEdge(Vertex *)` ends, for an array that models two bags with the vertex among the regular
  -- edges, and takes it out of that bag, whether or not the shrink throws.
  pub remove_regular_edge-Models :
      Models a roots (v ∷ regulars)
      → Returns (remove_regular_edge alloc a v) λ r. Models r.1 roots regulars
  unfolding remove_regular_edge
  remove_regular_edge-Models m =
      let (r, run, (valid, counts, same)) =
        remove_edge_impl-Removed alloc a v m.valid (ground (arith, m.holds v)) in
      (
        r,
        run,
        record {
          valid = valid;
          holds = λ x. omega (arith, counts x, m.holds x);
          counted = omega (arith, m.counted);
          word = m.word;
        },
      )

  -- `RemoveEdge(void *)` ends, for an array that models two bags with the pointer among the root
  -- edges, and takes it out of that bag; when the shrink throws the edge is gone too, but the count
  -- of root edges stays one too high.
  pub remove_root_edge-TakesRoot :
      Models a (v ∷ roots) regulars
      → Returns (remove_root_edge alloc a v) (TakesRoot roots regulars)
  unfolding remove_root_edge
  remove_root_edge-TakesRoot m =
      let (r, run, removed) =
        remove_edge_impl-Removed alloc a v m.valid (ground (arith, m.holds v)) in
      (discount_root r, rw run, TakesRoot-of_Removed a roots regulars v r m removed)

-- `Clear` of an array that models two bags leaves one that models two empty bags, whether or not the
-- shrink throws.
pub clear-Models :
    (alloc : Allocator) (a : ArrayOfEdges) (roots regulars : List ℕ)
    → Models a roots regulars
    → Models (clear alloc a).1 [] []
unfolding clear
clear-Models alloc a roots regulars m =
    let b : ArrayOfEdges = record a { edges = []; root_count = 0 } in
    let (valid, edges, counted) =
      evaluate_shrink_capacity-IsValid alloc b (record {
        sorted = tt;
        fits = omega arith;
        backed = m.valid.backed;
        word = m.valid.word;
      }) in
    record {
      valid = valid;
      holds = λ x. rw edges (omega arith);
      counted = counted;
      word = omega arith;
    }

-- `HasRootEdges` tells whether the bag of root edges has any.
pub has_root_edges_iff :
    (a : ArrayOfEdges) (roots regulars : List ℕ)
    → Models a roots regulars
    → (has_root_edges a ≡ true) ↔ (0 < length roots)
unfolding has_root_edges
has_root_edges_iff a roots regulars m = ground (arith, m.counted)
