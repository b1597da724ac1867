-- ===== src/Gc/ArrayOfEdges/Examples.antt =====
-- Tests of `ArrayOfEdges` (3FD/gc_arrayofedges.cpp), and its theorems at concrete arrays.
use fd.Base.{
  ℕ, zero, suc, ◌+◌, ◌≡◌, refl, Bool, true, false, List, [], ◌∷◌, arith, count, Returns, ok, stop,
  out_of_bounds, assertion, leb, length, if◌then◌else◌, ◌==◌, ◌<◌, ◌↔◌, some, ltb,
}
use fd.Gc.ArrayOfEdges.{
  ArrayOfEdges, returned, thrown, Allocator, add_root_edge, add_regular_edge, remove_root_edge,
  remove_regular_edge, has_root_edges, create_edge_impl, remove_edge_impl, search_edge,
  evaluate_shrink_capacity, drop_last, insertion_sort, shift_down,
}
use fd.Gc.ArrayOfEdges.Searching.{search_edge-present}
use fd.Gc.ArrayOfEdges.Contract.{
  Models, Adds, add_root_edge-Adds, add_regular_edge-Adds, remove_regular_edge-Models, TakesRoot,
  remove_root_edge-TakesRoot, has_root_edges_iff,
}
use fd.Gc.ArrayOfEdges.Failures.{
  create_edge_impl-overruns, remove_edge_impl-absent, remove_root_edge-stale,
}

abbrev always : Allocator
always _ = true

abbrev never : Allocator
never _ = false

-- Three edges, the one of pointer 20 from a root.
abbrev three : ArrayOfEdges
three = record { edges = 10 ∷ 20 ∷ 30 ∷ []; capacity = 4; root_count = 1; room = 4 }

three-Models : Models three (20 ∷ []) (10 ∷ 30 ∷ [])
three-Models = record {
  valid = record {
    sorted = omega arith;
    fits = omega arith;
    backed = omega arith;
    word = omega arith;
  };
  holds = λ x. omega arith;
  counted = refl;
  word = omega arith;
}

-- An edge in the middle: stored at the end, and moved left.
add_run :
    add_regular_edge always three 15
    ≡ ok (returned, record three { edges = 10 ∷ 15 ∷ 20 ∷ 30 ∷ [] })
unfolding add_regular_edge insertion_sort
add_run = refl

abbrev many : List ℕ
many = 1 ∷ 3 ∷ 5 ∷ 7 ∷ 9 ∷ 11 ∷ 13 ∷ 15 ∷ 17 ∷ []

search_run : search_edge many 13 ≡ ok (some 6)
unfolding search_edge
search_run = refl

search_edge-present_example :
    (i : ℕ) × (search_edge many 13 ≡ ok (some i))
    × (i < length many)
    × (fd.Base.get_or many i 0 ≡ 13)
search_edge-present_example = search_edge-present many 13 (omega arith) (omega arith)

add_root_edge-Adds_example :
    Returns (add_root_edge always three 40) (Adds three (40 ∷ 20 ∷ []) (10 ∷ 30 ∷ []))
add_root_edge-Adds_example =
    add_root_edge-Adds always three (20 ∷ []) (10 ∷ 30 ∷ []) 40 three-Models (omega arith)
      (omega arith)

add_regular_edge-Adds_example :
    Returns (add_regular_edge always three 40) (Adds three (20 ∷ []) (40 ∷ 10 ∷ 30 ∷ []))
add_regular_edge-Adds_example =
    add_regular_edge-Adds always three (20 ∷ []) (10 ∷ 30 ∷ []) 40 three-Models (omega arith)

remove_regular_edge-Models_example :
    Returns (remove_regular_edge always three 10) λ r. Models r.1 (20 ∷ []) (30 ∷ [])
remove_regular_edge-Models_example =
    remove_regular_edge-Models always three (20 ∷ []) (30 ∷ []) 10 three-Models

remove_root_edge-TakesRoot_example :
    Returns (remove_root_edge always three 20) (TakesRoot [] (10 ∷ 30 ∷ []))
remove_root_edge-TakesRoot_example =
    remove_root_edge-TakesRoot always three [] (10 ∷ 30 ∷ []) 20 three-Models

has_root_edges_iff_example : (has_root_edges three ≡ true) ↔ (0 < 1)
has_root_edges_iff_example = has_root_edges_iff three (20 ∷ []) (10 ∷ 30 ∷ []) three-Models

abbrev full : ArrayOfEdges
full = record { edges = 10 ∷ 20 ∷ []; capacity = 2; root_count = 0; room = 2 }

create_edge_impl-overruns_example :
    (b : ArrayOfEdges) × (create_edge_impl never full 15 ≡ ok (thrown, b))
    × (create_edge_impl always b 16 ≡ stop out_of_bounds)
create_edge_impl-overruns_example =
    create_edge_impl-overruns never always full 15 16 (omega arith) (omega arith) refl refl refl

remove_edge_impl-absent_example :
    remove_edge_impl always three 11
    ≡ ok (evaluate_shrink_capacity always (record three { edges = drop_last (10 ∷ 20 ∷ 30 ∷ []) }))
remove_edge_impl-absent_example = remove_edge_impl-absent always three 11 three-Models.valid refl

-- A last root edge in an array that has a slot too many.
abbrev sparse : ArrayOfEdges
sparse = record { edges = 10 ∷ 20 ∷ []; capacity = 8; root_count = 1; room = 8 }

sparse-Models : Models sparse (20 ∷ []) (10 ∷ [])
sparse-Models = record {
  valid = record {
    sorted = omega arith;
    fits = omega arith;
    backed = omega arith;
    word = omega arith;
  };
  holds = λ x. omega arith;
  counted = refl;
  word = omega arith;
}

remove_root_edge-stale_example :
    let b : ArrayOfEdges = record { edges = 10 ∷ []; capacity = 4; root_count = 1; room = 8 } in
    ((x : ℕ) → count x b.edges ≡ count x (10 ∷ [])) × (has_root_edges b ≡ true)
unfolding remove_root_edge search_edge shift_down drop_last
remove_root_edge-stale_example =
    remove_root_edge-stale never sparse
      (record { edges = 10 ∷ []; capacity = 4; root_count = 1; room = 8 }) (10 ∷ []) 20
      sparse-Models refl
