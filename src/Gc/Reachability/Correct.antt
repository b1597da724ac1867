-- ===== src/Gc/Reachability/Correct.antt =====
-- The search of 3FD/gc_memorydigraph.cpp ends, leaves no mark, and decides `AllRooted`.
use fd.Base.{
  ℕ, zero, suc, ◌+◌, ◌≡◌, refl, sym, ◌∙◌, Bool, true, false, not, Option, none, some, List, [], ◌∷◌,
  arith, ◌<◌, ◌≤◌, if◌then◌else◌, ◌==◌, count, Bool-cases, inl, inr, All, length, ==_iff, ◌↔◌, ok,
}
use fd.Gc.ArrayOfEdges.{has_root_edges, each_while, for_each_regular}
use fd.Gc.MemAddress.Flags.{set_bit0_lem}
use fd.Gc.Vertex.{Vertex, Heap, mark, is_marked, are_repr_obj_resources_released}
use fd.Gc.Reachability.{visit, search_vertex, is_reachable}
use fd.Gc.Reachability.Marks.{
  rooted, passable, marked, write-marked, marked_self, marked_other, is_open, has_root, edges_in,
  read-some,
}
use fd.Gc.Reachability.Rooted.{
  AllRooted, bound-All, AllRooted-unmark, AllRooted-cut, passable-unmark, All-map,
}

-- The regular edges of a vertex come from vertices that are there, all of them among `ds`.
abbrev pub IsThere : Heap → List ℕ → ℕ → Type 0
IsThere h ds u = (0 < count u ds) × ((w : Vertex) × (h u ≡ some w))

abbrev pub IsClosed : Heap → List ℕ → Type 0
IsClosed h ds =
    (p : ℕ) (v : Vertex)
    → h p ≡ some v
    → has_root_edges v.incoming ≡ false
    → All (IsThere h ds) v.incoming.edges

unfoldable pub is_clear : Option Vertex → Bool
is_clear none = false
is_clear (some v) = not (is_marked v)

-- How many of the vertices `ds` are not marked: how deep the recursion can go.
unfoldable pub unmarked_count : Heap → List ℕ → ℕ
unmarked_count h [] = 0
unmarked_count h (d ∷ ds) = (if is_clear (h d) then 1 else 0) + unmarked_count h ds

-- What a run from `p` gives: the heap as it was, and the answer to `AllRooted`.
abbrev pub Answers : ℕ → Heap → ℕ → Type 0
Answers fuel h p =
    (b : Bool) × (is_reachable fuel h p ≡ ok (b, h))
    × (b ≡ true → (n : ℕ) × AllRooted n h p)
    × ((n : ℕ) → AllRooted n h p → b ≡ true)

module _ (h : Heap) (p : ℕ) (v : Vertex) (at : h p ≡ some v) (clear : is_marked v ≡ false) where
  is_clear-marked : is_clear (some (mark true v)) ≡ false
  unfolding is_clear mark is_marked
  is_clear-marked = rw (set_bit0_lem true v.address).0

  is_clear-at : is_clear (some v) ≡ true
  unfolding is_clear
  is_clear-at = rw clear

  unmarked_count-marked :
      (ds : List ℕ) → unmarked_count (marked h p v at) ds + count p ds ≡ unmarked_count h ds
  unfolding unmarked_count
  unmarked_count-marked [] = omega arith
  unmarked_count-marked (d ∷ ds) = elim (Bool-cases (p == d)) [
    | inl e ↦
        let same : p ≡ d = (==_iff p d).0 e in
        rw (e, ← same, marked_self h p v at, at, is_clear-marked, is_clear-at)
          (omega (arith, unmarked_count-marked ds))
    | inr e ↦ rw (marked_other h p v at d e, e) (omega (arith, unmarked_count-marked ds))
  ]

  marked-IsThere : (ds : List ℕ) (u : ℕ) → IsThere h ds u → IsThere (marked h p v at) ds u
  marked-IsThere ds u (there, (w, e)) = elim (Bool-cases (p == u)) [
    | inl same ↦
        let q : p ≡ u = (==_iff p u).0 same in
        (there, (mark true v, rw (← q) (marked_self h p v at)))
    | inr other ↦ (there, (w, rw (marked_other h p v at u other) e))
  ]

  marked-IsClosed : (ds : List ℕ) → IsClosed h ds → IsClosed (marked h p v at) ds
  unfolding mark
  marked-IsClosed ds c q w e no_root = elim (Bool-cases (p == q)) [
    | inl same ↦
        let q' : p ≡ q = (==_iff p q).0 same in
        let e' : some w ≡ some (mark true v) = sym e ∙ rw (← q') (marked_self h p v at) in
        let w' : w ≡ mark true v = cc in
        let inc : w.incoming ≡ v.incoming = rw w' refl in
        rw inc (
          All-map (IsThere h ds) (IsThere (marked h p v at) ds) v.incoming.edges (marked-IsThere ds)
            (c p v at (rw inc at no_root)))
    | inr other ↦
        All-map (IsThere h ds) (IsThere (marked h p v at) ds) w.incoming.edges (marked-IsThere ds)
          (c q w (rw (marked_other h p v at q other) at e) no_root)
  ]

module _ (fuel : ℕ) (h : Heap) (ds : List ℕ) where
  -- The answers for the unmarked vertices, as far as the recursive calls go.
  abbrev Deeper : Type 0
  Deeper =
      (u : ℕ) (w : Vertex) → h u ≡ some w → is_marked w ≡ false → 0 < count u ds → Answers fuel h u

  visit_lem :
      Deeper
      → (u : ℕ) (b : Bool) → IsThere h ds u
      → (c : Bool) × (visit (is_reachable fuel) u (b, h) ≡ ok (c, (c, h)))
        × (c ≡ true → (passable h u ≡ true) × ((n : ℕ) × AllRooted n h u))
        × ((n : ℕ) → passable h u ≡ true → AllRooted n h u → c ≡ true)
  unfolding visit is_open
  visit_lem deeper u b (there, (w, e)) = elim (Bool-cases (is_marked w)) [
    | inl m ↦ (false, rw (read-some h u w e, m), (λ k. cc), (λ n o r. ground arith))
    | inr m ↦ elim (Bool-cases (are_repr_obj_resources_released w)) [
      | inl gone ↦ (false, rw (read-some h u w e, m, gone), (λ k. cc), (λ n o r. ground arith))
      | inr held ↦
          let (c, run, sound, complete) = deeper u w e m there in
          (
            c,
            rw (read-some h u w e, m, held, run),
            (λ k. (rw (e, m, held) refl, sound k)),
            (λ n o r. complete n r),
          )
    ]
  ]

  -- The loop answers for all the edges, and goes by its start only where there is none.
  loop_lem :
      Deeper
      → (es : List ℕ) (b : Bool) → All (IsThere h ds) es
      → (c : Bool) × (each_while (visit (is_reachable fuel)) es (b, h) ≡ ok (c, h))
        × (length es ≡ 0 → c ≡ b)
        × (c ≡ true → All (λ u. (passable h u ≡ true) × ((n : ℕ) × AllRooted n h u)) es)
        × ((n : ℕ)
            → 0 < length es
            → All (λ u. (passable h u ≡ true) × AllRooted n h u) es
            → c ≡ true)
  unfolding each_while
  loop_lem deeper [] b there = (b, refl, (λ e. refl), (λ k. tt), (λ n lt a. absurd (omega arith)))
  loop_lem deeper (u ∷ es) b there =
      let (c, run, sound, complete) = visit_lem deeper u b there.0 in
      elim (Bool-cases c) [
        | inr broke ↦ (
          false,
          rw (run, broke),
          (λ e. absurd (omega arith)),
          (λ k. cc),
          (λ n lt a. cc (complete n a.0.0 a.0.1)),
        )
        | inl more ↦
            let (d, rest, none_left, sound', complete') = loop_lem deeper es true there.1 in
            (
              d,
              rw (run, more) rest,
              (λ e. absurd (omega arith)),
              (λ k. (sound more, sound' k)),
              (λ n lt a. elim (Bool-cases (length es == 0)) [
                | inl last ↦ none_left (ground arith)
                | inr others ↦ complete' n (ground arith) a.1
              ]),
            )
      ]

unmark-All :
    (h : Heap) (p : ℕ) (v : Vertex) (at : h p ≡ some v) (n : ℕ) (es : List ℕ)
    → All (λ u. (passable (marked h p v at) u ≡ true) × AllRooted n (marked h p v at) u) es
    → All (λ u. (passable h u ≡ true) × AllRooted n h u) es
unmark-All h p v at n es =
    All-map (λ u. (passable (marked h p v at) u ≡ true) × AllRooted n (marked h p v at) u)
      (λ u. (passable h u ≡ true) × AllRooted n h u) es
      (λ u (o, r). (passable-unmark h p v at u o, AllRooted-unmark h p v at n u r))

-- The search at one vertex, from the answers at the vertices behind it.
search_vertex_lem :
    (fuel : ℕ) (h : Heap) (ds : List ℕ) (p : ℕ) (v : Vertex)
    → IsClosed h ds
    → (at : h p ≡ some v) → is_marked v ≡ false
    → Deeper fuel (marked h p v at) ds
    → (b : Bool) × (search_vertex (is_reachable fuel) h p v ≡ ok (b, h))
      × (b ≡ true → (n : ℕ) × AllRooted n h p)
      × ((n : ℕ) → AllRooted n h p → b ≡ true)
unfolding search_vertex for_each_regular has_root edges_in
search_vertex_lem fuel h ds p v closed at clear deeper =
    elim (Bool-cases (has_root_edges v.incoming)) [
      | inl root ↦ (true, rw root, (λ k. (0, rw at root)), (λ n r. refl))
      | inr no_root ↦
          let there =
            All-map (IsThere h ds) (IsThere (marked h p v at) ds) v.incoming.edges
              (marked-IsThere h p v at clear ds) (closed p v at no_root) in
          let (b, run, none_left, sound, complete) =
            loop_lem fuel (marked h p v at) ds deeper v.incoming.edges false there in
          (
            b,
            rw (no_root, run, read-some (marked h p v at) p (mark true v) (marked_self h p v at))
                (rw (write-marked h p v at clear)),
            (λ k.
                let (n, all) = bound-All (marked h p v at) v.incoming.edges (sound k) in
                let some_edge : 0 < length v.incoming.edges =
                  elim (Bool-cases (length v.incoming.edges == 0)) [
                    | inl e ↦ cc (none_left (ground arith))
                    | inr e ↦ ground arith
                  ] in
                (suc n, rw at (inr (some_edge, unmark-All h p v at n v.incoming.edges all)))),
            (λ n r.
                let no_root' : rooted h p ≡ false = rw at no_root in
                let (some_edge, (m, all)) = AllRooted-cut h p v at n n (omega arith) no_root' r in
                complete m (rw at at some_edge) (rw at at all)),
          )
    ]

is_reachable-suc :
    (fuel : ℕ) (h : Heap) (p : ℕ) (v : Vertex)
    → h p ≡ some v
    → is_reachable (suc fuel) h p ≡ search_vertex (is_reachable fuel) h p v
unfolding is_reachable
is_reachable-suc fuel h p v at = rw (read-some h p v at)

-- The search, by the fuel.
search_lem :
    (fuel : ℕ) (h : Heap) (ds : List ℕ)
    → IsClosed h ds
    → (p : ℕ) (v : Vertex) → h p ≡ some v
    → is_marked v ≡ false
    → 0 < count p ds
    → unmarked_count h ds ≤ fuel
    → Answers fuel h p
search_lem zero h ds closed p v at clear there le =
    absurd (omega (arith, unmarked_count-marked h p v at clear ds))
search_lem (suc fuel) h ds closed p v at clear there le =
    let (b, run, sound, complete) =
      search_vertex_lem fuel h ds p v closed at clear (λ u w at' clear' there'.
        search_lem fuel (marked h p v at) ds (marked-IsClosed h p v at clear ds closed) u w at'
          clear' there' (omega (arith, unmarked_count-marked h p v at clear ds))) in
    (b, is_reachable-suc fuel h p v at ∙ run, sound, complete)

-- From an unmarked vertex of a closed graph, with fuel for every unmarked vertex, the search
-- ends, gives the heap back as it was, and answers true exactly when every backward walk through
-- open vertices comes to a vertex with a root edge.
pub is_reachable_iff :
    (fuel : ℕ) (h : Heap) (ds : List ℕ) (p : ℕ) (v : Vertex)
    → IsClosed h ds
    → h p ≡ some v
    → is_marked v ≡ false
    → 0 < count p ds
    → unmarked_count h ds ≤ fuel
    → (b : Bool) × (is_reachable fuel h p ≡ ok (b, h)) × ((b ≡ true) ↔ ((n : ℕ) × AllRooted n h p))
is_reachable_iff fuel h ds p v closed at clear there le =
    let (b, run, sound, complete) = search_lem fuel h ds closed p v at clear there le in
    (b, run, (sound, λ t. complete t.0 t.1))
