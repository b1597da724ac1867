-- ===== src/Gc/Reachability/Cycles.antt =====
-- What the answer of the search of 3FD/gc_memorydigraph.cpp means for reachability.
use fd.Base.{
  ℕ, zero, suc, ◌≡◌, true, false, some, List, [], ◌∷◌, arith, ◌<◌, ◌≤◌, ◌==◌, count, Bool-cases,
  inl, inr, All, ==_iff, ok,
}
use fd.Gc.Vertex.{Vertex, Heap, is_marked}
use fd.Gc.Reachability.{is_reachable}
use fd.Gc.Reachability.Marks.{rooted, edges_of, passable}
use fd.Gc.Reachability.Rooted.{AllRooted, SomeRooted, AllRooted-SomeRooted}
use fd.Gc.Reachability.Correct.{IsClosed, unmarked_count, is_reachable_iff}

All-count {κ} : (P : ℕ → Type κ) (xs : List ℕ) (a : ℕ) → 0 < count a xs → All P xs → P a
All-count P [] a h all = absurd (omega arith)
All-count P (x ∷ xs) a h all = elim (Bool-cases (a == x)) [
  | inl e ↦ let same : a ≡ x = (==_iff a x).0 e in rw same all.0
  | inr e ↦ All-count P xs a (ground arith) all.1
]

module _ (h : Heap) (p u : ℕ) (p_bare : rooted h p ≡ false) (u_bare : rooted h u ≡ false) where
  cycle_not_AllRooted :
      0 < count u (edges_of h p)
      → 0 < count p (edges_of h u)
      → (n : ℕ) → (¬ AllRooted n h p) × (¬ AllRooted n h u)
  cycle_not_AllRooted pu up zero = ((λ r. cc), (λ r. cc))
  cycle_not_AllRooted pu up (suc n) =
      let (not_p, not_u) = cycle_not_AllRooted pu up n in
      (
        elim [
          | inl r ↦ cc
          | inr (_, all) ↦
              not_u
                (All-count (λ w. (passable h w ≡ true) × AllRooted n h w) (edges_of h p) u pu all).1
        ],
        elim [
          | inl r ↦ cc
          | inr (_, all) ↦
              not_p
                (All-count (λ w. (passable h w ≡ true) × AllRooted n h w) (edges_of h u) p up all).1
        ],
      )

module _ (fuel : ℕ) (h : Heap) (ds : List ℕ) (p : ℕ) (v : Vertex) (closed : IsClosed h ds)
    (at : h p ≡ some v) (clear : is_marked v ≡ false) (there : 0 < count p ds)
    (enough : unmarked_count h ds ≤ fuel) where
  -- From an unmarked vertex of a closed graph, with fuel for every unmarked vertex: if the search
  -- answers true, some backward walk through open vertices comes to a vertex with a root edge.
  pub is_reachable_sound :
      (h' : Heap) → is_reachable fuel h p ≡ ok (true, h') → (n : ℕ) × SomeRooted n h p
  is_reachable_sound h' answer =
      let (b, run, iff) = is_reachable_iff fuel h ds p v closed at clear there enough in
      let yes_b : b ≡ true = cc in let (n, r) = iff.0 yes_b in (n, AllRooted-SomeRooted n h p r)

  -- From an unmarked vertex `p` of a closed graph, with fuel for every unmarked vertex: if `p` is
  -- on a cycle with `u`, and neither has a root edge of its own, then the search answers false,
  -- though `p` has an edge from an open vertex `r` with a root edge.
  pub is_reachable-cycle :
      (u r : ℕ)
      → rooted h p ≡ false
      → rooted h u ≡ false
      → 0 < count u (edges_of h p)
      → 0 < count p (edges_of h u)
      → 0 < count r (edges_of h p)
      → passable h r ≡ true
      → rooted h r ≡ true
      → SomeRooted 1 h p × (is_reachable fuel h p ≡ ok (false, h))
  is_reachable-cycle u r p_bare u_bare pu up pr open_r root_r =
      let (b, run, iff) = is_reachable_iff fuel h ds p v closed at clear there enough in
      (
        inr (r, pr, open_r, root_r),
        elim (Bool-cases b) [
          | inr e ↦ rw (run, e)
          | inl e ↦
              let (n, all) = iff.0 e in
              absurd ((cycle_not_AllRooted h p u p_bare u_bare pu up n).0 all)
        ],
      )
