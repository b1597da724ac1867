-- ===== src/Gc/Reachability.antt =====
-- `IsReachable` of 3FD/gc_memorydigraph.cpp: a depth-first search along the incoming edges, which
-- marks the vertices of the path that it is on.
pub mod Marks
pub mod Rooted
pub mod Correct
pub mod Cycles
mod Examples
use fd.Base.{
  ℕ, zero, suc, Bool, true, false, Option, none, some, List, [], Run, ok, stop, no_return, ◌>>=◌,
  if◌then◌else◌, not, ◌&&◌,
}
use fd.Gc.ArrayOfEdges.{has_root_edges, for_each_regular}
use fd.Gc.Vertex.{Vertex, Heap, read, write, mark, is_marked, are_repr_obj_resources_released}

-- The callback: `rootFound` is the Boolean of the state, and what the callback returns.
pub visit : (Heap → ℕ → Run (Bool × Heap)) → ℕ → Bool × Heap → Run (Bool × (Bool × Heap))
visit search_from u (_, h) = do
  v ← read h u
  if is_marked v
      then ok (false, (false, h))
      else if are_repr_obj_resources_released v
      then ok (false, (false, h))
      else (do (found, h') ← search_from h u; ok (found, (found, h')))

-- The body of `IsReachable` on the vertex `v` at `p`, with the recursive call as an argument.
pub search_vertex : (Heap → ℕ → Run (Bool × Heap)) → Heap → ℕ → Vertex → Run (Bool × Heap)
search_vertex search_from h p v = if has_root_edges v.incoming then ok (true, h) else (do
  (found, h') ←
      for_each_regular (visit search_from) v.incoming (false, write h p (some (mark true v)))
  w ← read h' p
  ok (found, write h' p (some (mark false w))))

-- The fuel bounds the depth of the recursion; every call marks one more vertex.
pub is_reachable : ℕ → Heap → ℕ → Run (Bool × Heap)
is_reachable zero h p = stop no_return
is_reachable (suc fuel) h p = do v ← read h p; search_vertex (is_reachable fuel) h p v
