-- ===== src/Gc/ArrayOfEdges/Failures.antt =====
-- What the failing paths of `ArrayOfEdges` (3FD/gc_arrayofedges.cpp) leave behind.
use fd.Base.{
  ℕ, ◌-◌, ◌*◌, ◌%◌, ◌^◌, ◌≡◌, true, false, List, [], ◌∷◌, arith, ◌<◌, length, count, ltb, leb,
  Bool-cases, inl, inr, if◌then◌else◌, ◌==◌, ok, stop, assertion, out_of_bounds,
}
use fd.Gc.ArrayOfEdges.{
  ArrayOfEdges, thrown, Allocator, create_edge_impl, shift_down, remove_edge_impl, remove_root_edge,
  has_root_edges, evaluate_shrink_capacity, drop_last,
}
use fd.Gc.ArrayOfEdges.Searching.{search_edge-absent}
use fd.Gc.ArrayOfEdges.Invariant.{IsValid}
use fd.Gc.ArrayOfEdges.Contract.{Models, remove_root_edge-TakesRoot}

-- An array with all its slots in use and a capacity below 2 ^ 31, which cannot be expanded, throws
-- with its capacity already doubled: whatever the next edge is, and whether or not memory is there
-- by then, it is stored past the end of the block.
pub create_edge_impl-overruns :
    (alloc later : Allocator) (a : ArrayOfEdges) (v w : ℕ)
    → 0 < a.capacity
    → a.capacity < 2 ^ 31
    → length a.edges ≡ a.capacity
    → a.room ≡ a.capacity
    → alloc (a.capacity * 2 * 8) ≡ false
    → (b : ArrayOfEdges) × (create_edge_impl alloc a v ≡ ok (thrown, b))
      × (create_edge_impl later b w ≡ stop out_of_bounds)
unfolding create_edge_impl
create_edge_impl-overruns alloc later a v w some_room small full tight failed =
    let c : a.capacity * 2 % 2 ^ 32 ≡ a.capacity * 2 = omega arith in
    let no_slot : ltb (length a.edges) a.capacity ≡ false = ground arith in
    let expands : ltb 0 a.capacity ≡ true = ground arith in
    let slot : ltb (length a.edges) (a.capacity * 2) ≡ true = ground arith in
    let outside : ltb (length a.edges) a.room ≡ false = ground arith in
    (record a { capacity = a.capacity * 2 }, rw (no_slot, expands, c, failed), rw (slot, outside))

-- The removal of an edge that a valid array does not hold: an empty array asserts when it has no
-- block and is overrun when it has one; from an array of one to seven edges the last one, some
-- other edge, is dropped; a longer one asserts.
pub remove_edge_impl-absent :
    (alloc : Allocator) (a : ArrayOfEdges) (v : ℕ)
    → IsValid a
    → count v a.edges ≡ 0
    → remove_edge_impl alloc a v ≡ (
        if length a.edges == 0
        then (if a.room == 0 then stop assertion else stop out_of_bounds)
        else if leb (length a.edges) 7
        then ok (evaluate_shrink_capacity alloc (record a { edges = drop_last a.edges }))
        else stop assertion)
unfolding remove_edge_impl shift_down
remove_edge_impl-absent alloc a v h absent = elim (Bool-cases (length a.edges == 0)) [
  | inl empty ↦ rw empty
  | inr filled ↦ elim (Bool-cases (leb (length a.edges) 7)) [
    | inl short ↦
        let rounds : length a.edges - 1 - length a.edges ≡ 0 = omega arith in
        rw (filled, search_edge-absent a.edges v h.sorted absent, short, rounds)
    | inr long ↦ rw (filled, search_edge-absent a.edges v h.sorted absent, long)
  ]
]

-- When the removal of the last root edge, from an array that models its two bags, throws, the array
-- goes on to report root edges, though it holds the regular ones only.
pub remove_root_edge-stale :
    (alloc : Allocator) (a b : ArrayOfEdges) (regulars : List ℕ) (v : ℕ)
    → Models a (v ∷ []) regulars
    → remove_root_edge alloc a v ≡ ok (thrown, b)
    → ((x : ℕ) → count x b.edges ≡ count x regulars) × (has_root_edges b ≡ true)
unfolding has_root_edges
remove_root_edge-stale alloc a b regulars v m run =
    let (r, run', takes) = remove_root_edge-TakesRoot alloc a [] regulars v m in
    let same : r ≡ (thrown, b) = cc in
    let (valid, holds, counted) = rw same at takes in
    ((λ x. omega (arith, holds x)), ground (arith, counted))
