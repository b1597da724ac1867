-- ===== src/Gc/Reachability/Rooted.antt =====
-- The vertices for which the search of 3FD/gc_memorydigraph.cpp answers true: those from which
-- every backward walk through open vertices comes to a vertex with a root edge.
use fd.Base.{
  ℕ, zero, suc, ◌+◌, ◌≡◌, true, false, some, List, [], ◌∷◌, arith, ◌<◌, ◌≤◌, ◌==◌, count,
  Bool-cases, inl, inr, All, length, ==_iff, ◌⊎◌,
}
use fd.Gc.Vertex.{Vertex, Heap}
use fd.Gc.Reachability.Marks.{
  rooted, edges_of, passable, marked, rooted-marked, edges_of-marked, passable-marked,
}

-- Within `n` steps: a root edge, or at least one incoming edge and all of them from open
-- vertices of which the same holds within one step less.
abbrev pub AllRooted : ℕ → Heap → ℕ → Type 0
AllRooted zero h p = rooted h p ≡ true
AllRooted (suc n) h p =
    (rooted h p ≡ true)
    ⊎ ((0 < length (edges_of h p))
        × All (λ u. (passable h u ≡ true) × AllRooted n h u) (edges_of h p))

-- Within `n` steps along some edges: what reachability means.
abbrev pub SomeRooted : ℕ → Heap → ℕ → Type 0
SomeRooted zero h p = rooted h p ≡ true
SomeRooted (suc n) h p =
    (rooted h p ≡ true)
    ⊎ ((u : ℕ) × (0 < count u (edges_of h p)) × (passable h u ≡ true) × SomeRooted n h u)

pub All-map {ℓ κ μ} :
    {A : Type ℓ} (P : A → Type κ) (Q : A → Type μ) (xs : List A)
    → ((a : A) → P a → Q a)
    → All P xs
    → All Q xs
All-map P Q [] f h = tt
All-map P Q (x ∷ xs) f h = (f x h.0, All-map P Q xs f h.1)

pub AllRooted-le : (m n : ℕ) (h : Heap) (p : ℕ) → m ≤ n → AllRooted m h p → AllRooted n h p
AllRooted-le zero zero h p le r = r
AllRooted-le zero (suc n) h p le r = inl r
AllRooted-le (suc m) zero h p le r = absurd (omega arith)
AllRooted-le (suc m) (suc n) h p le (inl r) = inl r
AllRooted-le (suc m) (suc n) h p le (inr (some_edge, all)) = inr (
  some_edge,
  All-map (λ u. (passable h u ≡ true) × AllRooted m h u)
      (λ u. (passable h u ≡ true) × AllRooted n h u) (edges_of h p)
      (λ u (o, r). (o, AllRooted-le m n h u (omega arith) r)) all,
)

-- One bound for all the vertices of a list.
pub bound-All :
    (h : Heap) (es : List ℕ)
    → All (λ u. (passable h u ≡ true) × ((n : ℕ) × AllRooted n h u)) es
    → (n : ℕ) × All (λ u. (passable h u ≡ true) × AllRooted n h u) es
bound-All h [] a = (0, tt)
bound-All h (u ∷ es) ((o, (m, r)), a) =
    let (n, rest) = bound-All h es a in
    (
      m + n,
      (
        (o, AllRooted-le m (m + n) h u (omega arith) r),
        All-map (λ u. (passable h u ≡ true) × AllRooted n h u)
            (λ u. (passable h u ≡ true) × AllRooted (m + n) h u) es
            (λ u (o, r). (o, AllRooted-le n (m + n) h u (omega arith) r)) rest,
      ),
    )

first_of_All :
    (n : ℕ) (h : Heap) (es : List ℕ)
    → ((u : ℕ) → AllRooted n h u → SomeRooted n h u)
    → 0 < length es
    → All (λ u. (passable h u ≡ true) × AllRooted n h u) es
    → (u : ℕ) × (0 < count u es) × (passable h u ≡ true) × SomeRooted n h u
first_of_All n h [] some_of lt a = absurd (omega arith)
first_of_All n h (u ∷ es) some_of lt a = (u, ground arith, a.0.0, some_of u a.0.1)

-- What all walks do, some walk does.
pub AllRooted-SomeRooted : (n : ℕ) (h : Heap) (p : ℕ) → AllRooted n h p → SomeRooted n h p
AllRooted-SomeRooted zero h p r = r
AllRooted-SomeRooted (suc n) h p (inl r) = inl r
AllRooted-SomeRooted (suc n) h p (inr (some_edge, all)) =
    inr (first_of_All n h (edges_of h p) (AllRooted-SomeRooted n h) some_edge all)

module _ (h : Heap) (p : ℕ) (v : Vertex) (at : h p ≡ some v) where
  pub passable-unmark : (u : ℕ) → passable (marked h p v at) u ≡ true → passable h u ≡ true
  passable-unmark u o = elim (Bool-cases (p == u)) [
    | inl e ↦ let o' = rw (passable-marked h p v at u, e) at o in cc
    | inr e ↦ rw (passable-marked h p v at u, e) at o
  ]

  -- A mark takes nothing but vertices from the walks.
  pub AllRooted-unmark : (n u : ℕ) → AllRooted n (marked h p v at) u → AllRooted n h u
  AllRooted-unmark zero u r = rw (rooted-marked h p v at u) at r
  AllRooted-unmark (suc n) u (inl r) = inl (rw (rooted-marked h p v at u) at r)
  AllRooted-unmark (suc n) u (inr (some_edge, all)) = inr (
    rw (edges_of-marked h p v at u) at some_edge,
    rw (← edges_of-marked h p v at u) (
        All-map (λ w. (passable (marked h p v at) w ≡ true) × AllRooted n (marked h p v at) w)
          (λ w. (passable h w ≡ true) × AllRooted n h w) (edges_of (marked h p v at) u)
          (λ w (o, r). (passable-unmark w o, AllRooted-unmark n w r)) all),
  )

  -- The walks come to `p` itself within `n` steps.
  abbrev Returning : ℕ → Type 0
  Returning n = (k : ℕ) × (k ≤ n) × AllRooted k h p

  split-All :
      (n : ℕ) (es : List ℕ)
      → ((u : ℕ) → AllRooted n h u → AllRooted n (marked h p v at) u ⊎ Returning n)
      → All (λ u. (passable h u ≡ true) × AllRooted n h u) es
      → All (λ u. (passable (marked h p v at) u ≡ true) × AllRooted n (marked h p v at) u) es
        ⊎ Returning n
  split-All n [] split a = inl tt
  split-All n (u ∷ es) split ((o, r), a) = elim (Bool-cases (p == u)) [
    | inl e ↦ let same : p ≡ u = (==_iff p u).0 e in inr (n, omega arith, rw same r)
    | inr e ↦ elim (split u r) [
      | inr hit ↦ inr hit
      | inl here ↦ elim (split-All n es split a) [
        | inr hit ↦ inr hit
        | inl rest ↦ inl ((rw (passable-marked h p v at u, e) o, here), rest)
      ]
    ]
  ]

  -- Either the walks keep away from `p`, or they come to it.
  AllRooted-split : (n u : ℕ) → AllRooted n h u → AllRooted n (marked h p v at) u ⊎ Returning n
  AllRooted-split zero u r = inl (rw (rooted-marked h p v at u) r)
  AllRooted-split (suc n) u (inl r) = inl (inl (rw (rooted-marked h p v at u) r))
  AllRooted-split (suc n) u (inr (some_edge, all)) =
      elim (split-All n (edges_of h u) (AllRooted-split n) all) [
        | inr (k, le, r) ↦ inr (k, omega arith, r)
        | inl kept ↦
            inl (
              inr (rw (edges_of-marked h p v at u) some_edge, rw (edges_of-marked h p v at u) kept))
      ]

  -- The walks from `p` can be cut so that they do not come back to it.
  pub AllRooted-cut :
      (bound n : ℕ)
      → n ≤ bound
      → rooted h p ≡ false
      → AllRooted n h p
      → (0 < length (edges_of h p))
        × ((m : ℕ) × All
              (λ u. (passable (marked h p v at) u ≡ true) × AllRooted m (marked h p v at) u)
              (edges_of h p))
  AllRooted-cut bound zero le no_root r = cc
  AllRooted-cut bound (suc n) le no_root (inl r) = cc
  AllRooted-cut zero (suc n) le no_root (inr all) = absurd (omega arith)
  AllRooted-cut (suc bound) (suc n) le no_root (inr (some_edge, all)) =
      elim (split-All n (edges_of h p) (AllRooted-split n) all) [
        | inl kept ↦ (some_edge, (n, kept))
        | inr (k, shorter, r) ↦ AllRooted-cut bound k (omega arith) no_root r
      ]
