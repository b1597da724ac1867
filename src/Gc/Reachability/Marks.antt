-- ===== src/Gc/Reachability/Marks.antt =====
-- What the search reads of a heap, and what a mark changes of it (3FD/gc_memorydigraph.cpp).
use fd.Base.{
  ok, ℕ, ◌≡◌, refl, fun_ext, Bool, true, false, not, ◌&&◌, Option, none, some, List, [],
  if◌then◌else◌, ◌==◌, Bool-cases, inl, inr, ==_self, ==_iff,
}
use fd.Gc.ArrayOfEdges.{has_root_edges}
use fd.Gc.MemAddress.Flags.{set_bit0_lem, set_bit0-set_bit0}
use fd.Gc.Vertex.{Vertex, Heap, read, write, mark, is_marked, are_repr_obj_resources_released}

-- The vertex has an edge from a root.
unfoldable pub has_root : Option Vertex → Bool
has_root none = false
has_root (some v) = has_root_edges v.incoming

unfoldable pub edges_in : Option Vertex → List ℕ
edges_in none = []
edges_in (some v) = v.incoming.edges

-- The search goes through the vertex: it is neither on the path already nor released.
unfoldable pub is_open : Option Vertex → Bool
is_open none = false
is_open (some v) = not (is_marked v) && not (are_repr_obj_resources_released v)

abbrev pub rooted : Heap → ℕ → Bool
rooted h p = has_root (h p)

abbrev pub edges_of : Heap → ℕ → List ℕ
edges_of h p = edges_in (h p)

abbrev pub passable : Heap → ℕ → Bool
passable h p = is_open (h p)

pub read-some : (h : Heap) (p : ℕ) (v : Vertex) → h p ≡ some v → read h p ≡ ok v
unfolding read
read-some h p v e = rw (e, read)

module _ (h : Heap) (p : ℕ) (v : Vertex) (at : h p ≡ some v) where
  abbrev pub marked : Heap
  marked = write h p (some (mark true v))

  pub marked_self : marked p ≡ some (mark true v)
  unfolding write
  marked_self = rw ==_self

  pub marked_other : (q : ℕ) → (p == q) ≡ false → marked q ≡ h q
  unfolding write
  marked_other q e = rw e

  pub rooted-marked : (q : ℕ) → rooted marked q ≡ rooted h q
  unfolding mark has_root
  rooted-marked q = elim (Bool-cases (p == q)) [
    | inl e ↦ let same : p ≡ q = (==_iff p q).0 e in rw (← same, marked_self, at) refl
    | inr e ↦ rw (marked_other q e)
  ]

  pub edges_of-marked : (q : ℕ) → edges_of marked q ≡ edges_of h q
  unfolding mark edges_in
  edges_of-marked q = elim (Bool-cases (p == q)) [
    | inl e ↦ let same : p ≡ q = (==_iff p q).0 e in rw (← same, marked_self, at) refl
    | inr e ↦ rw (marked_other q e)
  ]

  pub passable-marked : (q : ℕ) → passable marked q ≡ (if p == q then false else passable h q)
  unfolding mark is_marked is_open
  passable-marked q = elim (Bool-cases (p == q)) [
    | inl e ↦
        let same : p ≡ q = (==_iff p q).0 e in
        rw (e, ← same, marked_self, (set_bit0_lem true v.address).0)
    | inr e ↦ rw (e, marked_other q e)
  ]

  -- Taking the mark off gives the heap back.
  pub write-marked : is_marked v ≡ false → write marked p (some (mark false (mark true v))) ≡ h
  unfolding write mark is_marked
  write-marked clear = fun_ext λ q. elim (Bool-cases (p == q)) [
    | inl e ↦
        let same : p ≡ q = (==_iff p q).0 e in rw (e, ← same, at, set_bit0-set_bit0 v.address clear)
    | inr e ↦ rw e
  ]
