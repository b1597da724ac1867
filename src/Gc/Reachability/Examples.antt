-- ===== src/Gc/Reachability/Examples.antt =====
-- The search of 3FD/gc_memorydigraph.cpp on concrete graphs.
use fd.Base.{
  ℕ, zero, suc, ◌+◌, ◌≡◌, refl, Bool, true, false, List, [], ◌∷◌, arith, count, ok, stop, ◌==◌, ◌<◌,
  ◌≤◌, ◌↔◌, some, none, ltb, inl, inr, if◌then◌else◌, Option, All, Bool-cases, ==_iff, sym, ◌∙◌,
}
use fd.Gc.ArrayOfEdges.{ArrayOfEdges, has_root_edges, for_each_regular, each_while}
use fd.Gc.Vertex.{Vertex, Heap, is_marked, read, write, mark, are_repr_obj_resources_released}
use fd.Gc.Reachability.{is_reachable, search_vertex, visit}
use fd.Gc.Reachability.Marks.{has_root, edges_in, is_open}
use fd.Gc.Reachability.Rooted.{AllRooted, SomeRooted}
use fd.Gc.Reachability.Correct.{IsClosed, unmarked_count, is_reachable_iff, is_clear}
use fd.Gc.Reachability.Cycles.{is_reachable_sound, is_reachable-cycle}

abbrev array : List ℕ → ℕ → ArrayOfEdges
array es roots = record { edges = es; capacity = 4; root_count = roots; room = 4 }

abbrev vertex : ℕ → List ℕ → ℕ → Vertex
vertex addr es roots = record {
  address = addr;
  incoming = array es roots;
  free_callback = 0;
  block_size = 16;
  out_edge_count = 1;
}

-- Vertex 1 has the root edge of the pointer 90. Vertex 2 has edges from 1 and 3, and 3 one from
-- 2: an object that a root holds through 1, on a cycle with another.
abbrev ring : Heap
ring p =
    if p == 1
    then some (vertex 0x100 (90 ∷ []) 1)
    else if p == 2
    then some (vertex 0x200 (1 ∷ 3 ∷ []) 0)
    else if p == 3
    then some (vertex 0x300 (2 ∷ []) 0)
    else none

runs : Unit {0}
unfolding is_reachable search_vertex visit for_each_regular each_while has_root_edges read write
    mark is_marked are_repr_obj_resources_released
runs = tt

abbrev answer : fd.Base.Run (Bool × Heap) → Option Bool
answer (ok (b, h)) = some b
answer (stop e) = none

ring_run : answer (is_reachable 3 ring 2) ≡ some false
unfolding runs
ring_run = refl

root_run : answer (is_reachable 3 ring 1) ≡ some true
unfolding runs
root_run = refl

ring-IsClosed : IsClosed ring (1 ∷ 2 ∷ 3 ∷ [])
unfolding has_root_edges
ring-IsClosed p v found no_root = elim (Bool-cases (p == 1)) [
  | inl one ↦
      let f = rw one at found in
      let e : v ≡ vertex 0x100 (90 ∷ []) 1 = cc in let bare = rw e at no_root in cc
  | inr not_one ↦ elim (Bool-cases (p == 2)) [
    | inl two ↦
        let f = rw (not_one, two) at found in
        let e : v ≡ vertex 0x200 (1 ∷ 3 ∷ []) 0 = cc in
        rw e ((omega arith, (_, refl)), ((omega arith, (_, refl)), tt))
    | inr not_two ↦ elim (Bool-cases (p == 3)) [
      | inl three ↦
          let f = rw (not_one, not_two, three) at found in
          let e : v ≡ vertex 0x300 (2 ∷ []) 0 = cc in rw e ((omega arith, (_, refl)), tt)
      | inr not_three ↦ let f = rw (not_one, not_two, not_three) at found in cc
    ]
  ]
]

ring_unmarked : unmarked_count ring (1 ∷ 2 ∷ 3 ∷ []) ≤ 3
unfolding unmarked_count is_clear is_marked
ring_unmarked = omega arith

is_reachable_iff_example :
    (b : Bool) × (is_reachable 3 ring 2 ≡ ok (b, ring))
    × ((b ≡ true) ↔ ((n : ℕ) × AllRooted n ring 2))
unfolding is_marked
is_reachable_iff_example =
    is_reachable_iff 3 ring (1 ∷ 2 ∷ 3 ∷ []) 2 (vertex 0x200 (1 ∷ 3 ∷ []) 0) ring-IsClosed refl refl
      (omega arith) ring_unmarked

-- A root edge is what the search finds at once.
root_answer : (b : Bool) × (is_reachable 3 ring 1 ≡ ok (b, ring)) × (b ≡ true)
unfolding has_root has_root_edges is_marked
root_answer =
    let (b, run, iff) =
      is_reachable_iff 3 ring (1 ∷ 2 ∷ 3 ∷ []) 1 (vertex 0x100 (90 ∷ []) 1) ring-IsClosed refl refl
        (omega arith) ring_unmarked in
    (b, run, iff.1 (0, refl))

is_reachable_sound_example : (n : ℕ) × SomeRooted n ring 1
unfolding is_marked
is_reachable_sound_example =
    is_reachable_sound 3 ring (1 ∷ 2 ∷ 3 ∷ []) 1 (vertex 0x100 (90 ∷ []) 1) ring-IsClosed refl refl
      (omega arith) ring_unmarked ring (rw (← root_answer.2) root_answer.1)

is_reachable-cycle_example : SomeRooted 1 ring 2 × (is_reachable 3 ring 2 ≡ ok (false, ring))
unfolding is_marked has_root has_root_edges edges_in is_open are_repr_obj_resources_released
is_reachable-cycle_example =
    is_reachable-cycle 3 ring (1 ∷ 2 ∷ 3 ∷ []) 2 (vertex 0x200 (1 ∷ 3 ∷ []) 0) ring-IsClosed refl
      refl (omega arith) ring_unmarked 3 1 refl refl (omega arith) (omega arith) (omega arith) refl
      refl
