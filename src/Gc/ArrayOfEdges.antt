-- ===== src/Gc/ArrayOfEdges.antt =====
-- 3FD/gc_arrayofedges.cpp: the dynamically resizable array of incoming edges of a vertex.
-- A pointer is a number. `edges` is what the first `m_arraySize` slots of `m_array` hold, so
-- `m_arraySize` is its length; `room` is how many slots the block at `m_array` really has.
pub mod Sorting
pub mod Searching
pub mod Removal
pub mod Invariant
pub mod Contract
pub mod Failures
mod Examples
use fd.Base.{
  ℕ, zero, suc, ◌+◌, ◌-◌, ◌*◌, ◌/◌, ◌%◌, ◌^◌, Bool, true, false, Option, none, some, List, [], ◌∷◌,
  ◌++◌, Run, ok, stop, not, assert, ◌>>◌, assertion, out_of_bounds, no_return, ◌>>=◌, ltb, leb,
  ◌==◌, if◌then◌else◌, length, get_or, set,
}

pub record ArrayOfEdges : Type 0 where
  pub edges : List ℕ
  pub capacity : ℕ
  pub root_count : ℕ
  pub room : ℕ

-- How a call ends: it returns, or `std::bad_alloc` leaves it. Either way the array has a state.
pub data Status : Type 0 where
  returned thrown : Status

-- Whether `malloc` or `realloc` gives a block of so many bytes.
abbrev pub Allocator : Type 0
Allocator = ℕ → Bool

-- `InsertionSort`: the loop with `right` at the given index.
pub sift : List ℕ → ℕ → List ℕ
sift xs zero = xs
sift xs (suc left) =
    let rest =
      sift (set (set xs (suc left) (get_or xs left 0)) left (get_or xs (suc left) 0)) left in
    if ltb (get_or xs (suc left) 0) (get_or xs left 0) then rest else xs

unfoldable pub insertion_sort : List ℕ → List ℕ
unfolding sift
insertion_sort xs = sift xs (length xs - 1)

-- `std::find`: the index of the first match, or the length.
unfoldable pub index_of : ℕ → List ℕ → ℕ
index_of what [] = 0
index_of what (x ∷ xs) = if x == what then 0 else suc (index_of what xs)

-- The loop of `Search` on [left, right); `none` is the null pointer.
pub bisect : ℕ → List ℕ → ℕ → ℕ → ℕ → Run (Option ℕ)
bisect zero xs left right what = stop no_return
bisect (suc fuel) xs left right what =
    let middle = left + (right - left) / 2 in
    elim (ltb what (get_or xs middle 0)) [
      | true ↦ elim (ltb 0 (middle - left)) [
        | true ↦ bisect fuel xs left middle what
        | false ↦ ok none
      ]
      | false ↦ elim (ltb (get_or xs middle 0) what) [
        | true ↦ elim (ltb 0 (right - (middle + 1))) [
          | true ↦ bisect fuel xs (middle + 1) right what
          | false ↦ ok none
        ]
        | false ↦ ok (some middle)
      ]
    ]

-- `Search` over the whole array. Each round of the loop shortens the interval.
unfoldable pub search_edge : List ℕ → ℕ → Run (Option ℕ)
unfolding index_of bisect
search_edge xs what =
    if leb (length xs) 7
    then ok (some (index_of what xs))
    else bisect (length xs) xs 0 (length xs) what

unfoldable pub new_array : ArrayOfEdges
new_array = record { edges = []; capacity = 0; root_count = 0; room = 0 }

-- `m_array[m_arraySize++] = vtx`
append_edge : ArrayOfEdges → ℕ → Run ArrayOfEdges
append_edge a vtx =
    if ltb (length a.edges) a.room
    then ok (record a { edges = a.edges ++ vtx ∷ [] })
    else stop out_of_bounds

abbrev sort_edges : ArrayOfEdges → Status × ArrayOfEdges
sort_edges a = (returned, record a { edges = insertion_sort a.edges })

-- The tail of the branch that expands: the store and the sort, unless `realloc` threw.
store_edge : ℕ → Status × ArrayOfEdges → Run (Status × ArrayOfEdges)
unfolding append_edge
store_edge vtx (returned, a) = do b ← append_edge a vtx; ok (sort_edges b)
store_edge vtx (thrown, a) = ok (thrown, a)

-- `for (; idx < m_arraySize; ++idx) m_array[idx] = m_array[idx + 1]`, by the rounds left
unfoldable pub shift_down : ℕ → ℕ → List ℕ → List ℕ
shift_down zero idx xs = xs
shift_down (suc n) idx xs = shift_down n (suc idx) (set xs idx (get_or xs (suc idx) 0))

-- `m_arraySize--`: the last slot is no longer part of the array.
unfoldable pub drop_last : List ℕ → List ℕ
drop_last [] = []
drop_last (x ∷ []) = []
drop_last (x ∷ y ∷ ys) = x ∷ drop_last (y ∷ ys)

-- `++m_rootCount`
count_root : Status × ArrayOfEdges → Status × ArrayOfEdges
count_root (returned, a) = (returned, record a { root_count = (a.root_count + 1) % 2 ^ 32 })
count_root (thrown, a) = (thrown, a)

-- `--m_rootCount`
discount_root : Status × ArrayOfEdges → Status × ArrayOfEdges
discount_root (returned, a) =
    (returned, record a { root_count = (a.root_count + 2 ^ 32 - 1) % 2 ^ 32 })
discount_root (thrown, a) = (thrown, a)

module _ (alloc : Allocator) where
  -- `realloc` to the capacity just stored; the block stays as it was if that fails
  reallocate : ArrayOfEdges → Status × ArrayOfEdges
  reallocate a =
      if alloc (a.capacity * 8) then (returned, record a { room = a.capacity }) else (thrown, a)

  -- `CreateEdgeImpl`
  unfoldable pub create_edge_impl : ArrayOfEdges → ℕ → Run (Status × ArrayOfEdges)
  unfolding reallocate store_edge
  create_edge_impl a vtx =
      if ltb (length a.edges) a.capacity
      then store_edge vtx (returned, a)
      else if ltb 0 a.capacity
      then store_edge vtx (reallocate (record a { capacity = a.capacity * 2 % 2 ^ 32 }))
      else if alloc 8
      then ok (returned, record a { edges = vtx ∷ []; capacity = 1; room = 1 })
      else ok (thrown, record a { room = 0 })

  -- `EvaluateShrinkCapacity`
  unfoldable pub evaluate_shrink_capacity : ArrayOfEdges → Status × ArrayOfEdges
  unfolding reallocate
  evaluate_shrink_capacity a =
      if ltb (length a.edges) (a.capacity / 4)
      then reallocate (record a { capacity = a.capacity / 2 })
      else (returned, a)

  -- What follows the search: the shift from `where`, and the null pointer's assertion.
  remove_found : ArrayOfEdges → Option ℕ → Run (Status × ArrayOfEdges)
  unfolding evaluate_shrink_capacity
  remove_found a none = stop assertion
  remove_found a (some idx) =
      let shifted = drop_last (shift_down (length a.edges - 1 - idx) idx a.edges) in
      ok (evaluate_shrink_capacity (record a { edges = shifted }))

  -- `RemoveEdgeImpl`. On an empty array without a block the search returns the null pointer; on one
  -- with a block `m_arraySize--` wraps, and the shift reads past the block.
  unfoldable pub remove_edge_impl : ArrayOfEdges → ℕ → Run (Status × ArrayOfEdges)
  unfolding remove_found
  remove_edge_impl a vtx =
      if length a.edges == 0
      then (if a.room == 0 then stop assertion else stop out_of_bounds)
      else (do found ← search_edge a.edges vtx; remove_found a found)

  -- `AddEdge(void *)`; the counter is not reached when the exception leaves the call
  unfoldable pub add_root_edge : ArrayOfEdges → ℕ → Run (Status × ArrayOfEdges)
  unfolding create_edge_impl count_root
  add_root_edge a vtx = do r ← create_edge_impl a vtx; ok (count_root r)

  -- `AddEdge(Vertex *)`
  unfoldable pub add_regular_edge : ArrayOfEdges → ℕ → Run (Status × ArrayOfEdges)
  unfolding create_edge_impl
  add_regular_edge a vtx = create_edge_impl a vtx

  -- `RemoveEdge(void *)`
  unfoldable pub remove_root_edge : ArrayOfEdges → ℕ → Run (Status × ArrayOfEdges)
  unfolding remove_edge_impl discount_root
  remove_root_edge a vtx = do r ← remove_edge_impl a vtx; ok (discount_root r)

  -- `RemoveEdge(Vertex *)`
  unfoldable pub remove_regular_edge : ArrayOfEdges → ℕ → Run (Status × ArrayOfEdges)
  unfolding remove_edge_impl
  remove_regular_edge a vtx = remove_edge_impl a vtx

  -- `Clear`
  unfoldable pub clear : ArrayOfEdges → Status × ArrayOfEdges
  unfolding evaluate_shrink_capacity
  clear a = evaluate_shrink_capacity (record a { edges = []; root_count = 0 })

-- `HasRootEdges`
unfoldable pub has_root_edges : ArrayOfEdges → Bool
has_root_edges a = ltb 0 a.root_count

-- The loop of `ForEachRegular`: it goes on while the callback returns true.
unfoldable pub each_while {ℓ} : {S : Type ℓ} → (ℕ → S → Run (Bool × S)) → List ℕ → S → Run S
each_while callback [] s = ok s
each_while callback (v ∷ vs) s = do
  (more, s') ← callback v s
  if more then each_while callback vs s' else ok s'

-- `ForEachRegular`, with its assertion; `S` is what the callback changes.
unfoldable pub for_each_regular {ℓ} :
    {S : Type ℓ} → (ℕ → S → Run (Bool × S)) → ArrayOfEdges → S → Run S
for_each_regular callback a s = do assert (not (has_root_edges a)); each_while callback a.edges s
