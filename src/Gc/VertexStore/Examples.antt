-- ===== src/Gc/VertexStore/Examples.antt =====
-- The look-ups of 3FD/gc_vertexstore.cpp in a concrete store, with sorted lists for the set.
use fd.Base.{
  ℕ, zero, suc, ◌+◌, ◌^◌, ◌≡◌, inl, inr, refl, Bool, true, false, Option, none, some, List, [], ◌∷◌,
  Returns, ◌==◌, if◌then◌else◌, length, get_or, arith, ◌<◌, ◌≤◌, Bool-cases, ltb, erase_at,
}
use fd.Gc.MemAddress.{get}
use fd.Gc.ArrayOfEdges.{ArrayOfEdges}
use fd.Gc.Vertex.{Vertex}
use fd.Gc.VertexStore.{VertexStore, Surroundings, OrderedSet, block_address, get_container_vertex}
use fd.Gc.VertexStore.Container.{
  IsAscending, IsLowerBound, IsValid, FindsHolder, size_at, get_container_vertex-finds,
}

abbrev first_not_less : (ℕ → ℕ) → ℕ → List ℕ → ℕ
first_not_less key k [] = 0
first_not_less key k (x ∷ xs) = if ltb (key x) k then suc (first_not_less key k xs) else 0

abbrev find_key : (ℕ → ℕ) → ℕ → List ℕ → Option ℕ
find_key key k xs =
    let i = first_not_less key k xs in
    if ltb i (length xs) then (if key (get_or xs i 0) == k then some i else none) else none

abbrev insert_sorted : (ℕ → ℕ) → ℕ → List ℕ → Bool × List ℕ
insert_sorted key p [] = (true, p ∷ [])
insert_sorted key p (x ∷ xs) =
    if ltb (key p) (key x)
    then (true, p ∷ x ∷ xs)
    else if key p == key x
    then (false, x ∷ xs)
    else (let (inserted, ys) = insert_sorted key p xs in (inserted, x ∷ ys))

abbrev sorted_lists : OrderedSet
sorted_lists = record {
  find = find_key;
  lower_bound = first_not_less;
  insert = insert_sorted;
  erase = λ i xs. erase_at xs i;
}

first_not_less-le : (key : ℕ → ℕ) (k : ℕ) (xs : List ℕ) → first_not_less key k xs ≤ length xs
first_not_less-le key k [] = omega arith
first_not_less-le key k (x ∷ xs) = ground (arith, first_not_less-le key k xs)

first_not_less_before :
    (key : ℕ → ℕ) (k : ℕ) (xs : List ℕ) (j : ℕ)
    → j < first_not_less key k xs
    → key (get_or xs j 0) < k
first_not_less_before key k [] j h = absurd (omega arith)
first_not_less_before key k (x ∷ xs) zero h = ground arith
first_not_less_before key k (x ∷ xs) (suc j) h = first_not_less_before key k xs j (ground arith)

first_not_less_behind :
    (key : ℕ → ℕ) (k : ℕ) (xs : List ℕ) (j : ℕ)
    → IsAscending key xs
    → first_not_less key k xs ≤ j
    → j < length xs
    → k ≤ key (get_or xs j 0)
first_not_less_behind key k [] j asc h lt = absurd (omega arith)
first_not_less_behind key k (x ∷ xs) zero asc h lt = ground arith
first_not_less_behind key k (x ∷ xs) (suc j) asc h lt = elim (Bool-cases (ltb (key x) k)) [
  | inl less ↦
      first_not_less_behind key k xs j (λ i l a b. asc (suc i) (suc l) (omega arith) (omega arith))
        (ground arith) (omega arith)
  | inr more ↦ ground (arith, asc 0 (suc j) (omega arith) lt)
]

sorted_lists-IsLowerBound : IsLowerBound sorted_lists.lower_bound
sorted_lists-IsLowerBound key k xs asc = (
  first_not_less-le key k xs,
  first_not_less_before key k xs,
  λ j low lt. first_not_less_behind key k xs j asc low lt,
)

abbrev around : Surroundings
around = record { ordered = sorted_lists; chunk = λ d. some 0x10000; grown = 64 }

abbrev no_edges : ArrayOfEdges
no_edges = record { edges = []; capacity = 0; root_count = 0; room = 0 }

abbrev block : ℕ → ℕ → Vertex
block addr size = record {
  address = addr;
  incoming = no_edges;
  free_callback = 0;
  block_size = size;
  out_edge_count = 0;
}

-- Two blocks, of 16 and of 32 octets.
abbrev store : VertexStore
store = record {
  heap =
      λ p. if p == 1 then some (block 0x100 16) else if p == 2 then some (block 0x200 32) else none;
  pool = record { initial_size = 8; block_size = 40; pools = []; available_pools = [] };
  vertices = 1 ∷ 2 ∷ [];
}

store_live : (j : ℕ) → j < 2 → (v : Vertex) × (store.heap (get_or store.vertices j 0) ≡ some v)
store_live zero lt = (block 0x100 16, refl)
store_live (suc zero) lt = (block 0x200 32, refl)
store_live (suc (suc j)) lt = absurd (omega arith)

store_bounded :
    (j : ℕ)
    → j < 2
    → block_address store.heap (get_or store.vertices j 0) + size_at store j < 2 ^ 64
unfolding block_address size_at get
store_bounded zero lt = omega arith
store_bounded (suc zero) lt = omega arith
store_bounded (suc (suc j)) lt = absurd (omega arith)

pairs : (P : ℕ → ℕ → Type 0) → P 0 1 → (i j : ℕ) → i < j → j < 2 → P i j
pairs P h zero zero a b = absurd (omega arith)
pairs P h zero (suc zero) a b = h
pairs P h (suc i) (suc zero) a b = absurd (omega arith)
pairs P h (suc i) zero a b = absurd (omega arith)
pairs P h i (suc (suc j)) a b = absurd (omega arith)

store-IsValid : IsValid store
unfolding block_address size_at get
store-IsValid = record {
  live = store_live;
  ascending =
      pairs
        (λ i j.
          block_address store.heap (get_or store.vertices i 0)
          < block_address store.heap (get_or store.vertices j 0))
        (omega arith);
  apart =
      pairs
        (λ i j.
          block_address store.heap (get_or store.vertices i 0) + size_at store i
          ≤ block_address store.heap (get_or store.vertices j 0))
        (omega arith);
  bounded = store_bounded;
}

get_container_vertex-finds_example :
    Returns (get_container_vertex around store 0x208) (FindsHolder store 0x208)
get_container_vertex-finds_example =
    get_container_vertex-finds around store 0x208 sorted_lists-IsLowerBound store-IsValid refl
