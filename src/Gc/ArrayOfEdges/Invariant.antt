-- ===== src/Gc/ArrayOfEdges/Invariant.antt =====
-- What every operation of `ArrayOfEdges` (3FD/gc_arrayofedges.cpp) keeps, and what it does.
use fd.Base.{
  ℕ, ◌+◌, ◌-◌, ◌*◌, ◌%◌, ◌^◌, ◌≡◌, refl, true, false, List, [], ◌∷◌, ◌++◌, arith, ◌≤◌, ◌<◌, ltb,
  if◌then◌else◌, ◌==◌, length, IsSorted, count, Bool-cases, inl, inr, Returns, erase_at,
  erase_at-IsSorted, length-erase_at, count-erase_at,
}
use fd.Gc.ArrayOfEdges.{
  ArrayOfEdges, Status, returned, thrown, Allocator, new_array, create_edge_impl, remove_edge_impl,
  insertion_sort, evaluate_shrink_capacity, store_edge,
}
use fd.Gc.ArrayOfEdges.Sorting.{
  insertion_sort-IsSorted, count-insertion_sort, length-insertion_sort,
}
use fd.Gc.ArrayOfEdges.Searching.{search_edge-present}
use fd.Gc.ArrayOfEdges.Removal.{drop_last-shift_down}

-- The array is sorted, its size is within the capacity, and the capacity within the block.
pub record IsValid (a : ArrayOfEdges) : Type 0 where
  pub sorted : IsSorted a.edges
  pub fits : length a.edges ≤ a.capacity
  pub backed : a.capacity ≤ a.room
  pub word : a.capacity < 2 ^ 32

pub new_array-IsValid : IsValid new_array
unfolding new_array
new_array-IsValid = ground arith

-- One more `v` in the array, or nothing but the exception.
abbrev pub Added : ArrayOfEdges → ℕ → Status × ArrayOfEdges → Type 0
Added a v (returned, b) =
    IsValid b
    × ((x : ℕ) → count x b.edges ≡ count x a.edges + (if x == v then 1 else 0))
    × (b.root_count ≡ a.root_count)
    × (length b.edges ≡ length a.edges + 1)
Added a v (thrown, b) = (b.edges ≡ a.edges) × (b.root_count ≡ a.root_count)

-- A store into a slot that is there, and the sort.
store_edge-Added :
    (a b : ArrayOfEdges) (v : ℕ)
    → IsValid a
    → b.edges ≡ a.edges
    → b.root_count ≡ a.root_count
    → length a.edges < b.capacity
    → b.capacity ≤ b.room
    → b.capacity < 2 ^ 32
    → Returns (store_edge v (returned, b)) (Added a v)
unfolding store_edge
store_edge-Added a b v h e r lt backed word =
    let fits : ltb (length a.edges) b.room ≡ true = ground arith in
    let len = length-insertion_sort a.edges v in
    (
      (returned, record b { edges = insertion_sort (a.edges ++ v ∷ []) }),
      rw (e, fits),
      (
        record {
          sorted = insertion_sort-IsSorted a.edges v h.sorted;
          fits = omega (arith, len);
          backed = backed;
          word = word;
        },
        (λ x. count-insertion_sort x a.edges v),
        r,
        len,
      ),
    )

empty_of_length : (xs : List ℕ) → length xs ≡ 0 → xs ≡ []
empty_of_length [] h = refl
empty_of_length (x ∷ xs) h = absurd (omega arith)

first_edge :
    (a : ArrayOfEdges) (v : ℕ) → IsValid (record a { edges = v ∷ []; capacity = 1; room = 1 })
first_edge a v = record {
  sorted = (tt, tt);
  fits = omega arith;
  backed = omega arith;
  word = omega arith;
}

pub create_edge_impl-Added :
    (alloc : Allocator) (a : ArrayOfEdges) (v : ℕ)
    → IsValid a
    → a.capacity < 2 ^ 31
    → Returns (create_edge_impl alloc a v) (Added a v)
unfolding create_edge_impl
create_edge_impl-Added alloc a v h small = elim (Bool-cases (ltb (length a.edges) a.capacity)) [
  | inl room ↦ rw room (store_edge-Added a a v h refl refl (ground arith) h.backed h.word)
  | inr full ↦ elim (Bool-cases (ltb 0 a.capacity)) [
    | inl some_room ↦
        let c : a.capacity * 2 % 2 ^ 32 ≡ a.capacity * 2 = omega arith in
        elim (Bool-cases (alloc (a.capacity * 2 * 8))) [
          | inl got ↦
              rw (full, some_room, c, got)
                (store_edge-Added a (record a { capacity = a.capacity * 2; room = a.capacity * 2 })
                  v h refl refl (ground arith) (omega arith) (omega arith))
          | inr failed ↦ (
            (thrown, record a { capacity = a.capacity * 2 }),
            rw (full, some_room, c, failed),
            (refl, refl),
          )
        ]
    | inr no_room ↦
        let none_yet = empty_of_length a.edges (ground arith) in
        elim (Bool-cases (alloc 8)) [
          | inl got ↦ (
            (returned, record a { edges = v ∷ []; capacity = 1; room = 1 }),
            rw (full, no_room, got),
            (first_edge a v, (λ x. rw none_yet (omega arith)), refl, rw none_yet (omega arith)),
          )
          | inr failed ↦ ((thrown, record a { room = 0 }), rw (full, no_room, failed), (refl, refl))
        ]
  ]
]

-- The shrink keeps the edges, whether or not `realloc` gives the smaller block.
pub evaluate_shrink_capacity-IsValid :
    (alloc : Allocator) (a : ArrayOfEdges)
    → IsValid a
    → let r = evaluate_shrink_capacity alloc a in
      IsValid r.1 × (r.1.edges ≡ a.edges) × (r.1.root_count ≡ a.root_count)
unfolding evaluate_shrink_capacity
evaluate_shrink_capacity-IsValid alloc a h = ground arith

-- Every way of ending leaves a valid array with one `v` less.
abbrev pub Removed : ArrayOfEdges → ℕ → Status × ArrayOfEdges → Type 0
Removed a v (st, b) =
    IsValid b
    × ((x : ℕ) → count x b.edges + (if x == v then 1 else 0) ≡ count x a.edges)
    × (b.root_count ≡ a.root_count)

pub remove_edge_impl-Removed :
    (alloc : Allocator) (a : ArrayOfEdges) (v : ℕ)
    → IsValid a
    → 0 < count v a.edges
    → Returns (remove_edge_impl alloc a v) (Removed a v)
unfolding remove_edge_impl
remove_edge_impl-Removed alloc a v h present =
    let (i, run, lt, at) = search_edge-present a.edges v h.sorted present in
    let shifted = drop_last-shift_down a.edges i (length a.edges - 1 - i) lt refl in
    let some_edges : (length a.edges == 0) ≡ false = ground arith in
    let b : ArrayOfEdges = record a { edges = erase_at a.edges i } in
    let (valid, edges, roots) = evaluate_shrink_capacity-IsValid alloc b (record {
      sorted = erase_at-IsSorted a.edges i h.sorted;
      fits = omega (arith, length-erase_at a.edges i lt);
      backed = h.backed;
      word = h.word;
    }) in
    (
      evaluate_shrink_capacity alloc b,
      rw (some_edges, run, shifted),
      (valid, (λ x. rw (edges, ← at) (count-erase_at x a.edges i lt)), roots),
    )
