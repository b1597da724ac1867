-- ===== src/Gc/VertexStore/Container.antt =====
-- What `GetContainerVertex` of 3FD/gc_vertexstore.cpp finds in a store whose blocks are apart.
use fd.Base.{
  ℕ, ◌+◌, ◌-◌, ◌%◌, ◌^◌, ◌≡◌, ◌⊎◌, inl, inr, refl, Bool, true, false, Option, none, some, List, ok,
  Returns, ◌==◌, ==_iff, if◌then◌else◌, length, get_or, arith, ◌<◌, ◌≤◌, Bool-cases, ltb, subst,
}
use fd.Gc.MemAddress.{get}
use fd.Gc.MemAddress.Flags.{get_aligned}
use fd.Gc.Vertex.{Vertex, Heap, contains}
use fd.Gc.Reachability.Marks.{read-some}
use fd.Gc.VertexStore.{
  VertexStore, Surroundings, block_address, bound_of, check_at, check_from, get_container_vertex,
}

-- The set is sorted by the key, without duplicates.
abbrev pub IsAscending : (ℕ → ℕ) → List ℕ → Type 0
IsAscending key xs = (i j : ℕ) → i < j → j < length xs → key (get_or xs i 0) < key (get_or xs j 0)

-- What `lower_bound` of a sorted set returns: the first element that is not less than the key.
abbrev pub IsLowerBound : ((ℕ → ℕ) → ℕ → List ℕ → ℕ) → Type 0
IsLowerBound bound =
    (key : ℕ → ℕ) (k : ℕ) (xs : List ℕ)
    → IsAscending key xs
    → (bound key k xs ≤ length xs)
      × ((j : ℕ) → j < bound key k xs → key (get_or xs j 0) < k)
      × ((j : ℕ) → bound key k xs ≤ j → j < length xs → k ≤ key (get_or xs j 0))

size_of : Option Vertex → ℕ
size_of none = 0
size_of (some v) = v.block_size

holds_in : ℕ → Option Vertex → Bool
holds_in addr none = false
holds_in addr (some v) = contains v addr

-- Where the `j`th block starts, its size, and whether the address is in it.
abbrev pub start_at : VertexStore → ℕ → ℕ
start_at s j = block_address s.heap (get_or s.vertices j 0)

unfoldable pub size_at : VertexStore → ℕ → ℕ
unfolding size_of
size_at s j = size_of (s.heap (get_or s.vertices j 0))

unfoldable pub contains_at : VertexStore → ℕ → ℕ → Bool
unfolding holds_in
contains_at s addr j = holds_in addr (s.heap (get_or s.vertices j 0))

-- The vertices are there, in the order of their blocks, and the blocks do not overlap.
pub record IsValid (s : VertexStore) : Type 0 where
  pub live :
      (j : ℕ) → j < length s.vertices → (v : Vertex) × (s.heap (get_or s.vertices j 0) ≡ some v)
  pub ascending : IsAscending (block_address s.heap) s.vertices
  pub apart : (i j : ℕ) → i < j → j < length s.vertices → start_at s i + size_at s i ≤ start_at s j
  pub bounded : (j : ℕ) → j < length s.vertices → start_at s j + size_at s j < 2 ^ 64

-- Null when no block holds the address, and the vertex of the block that does otherwise.
abbrev pub FindsHolder : VertexStore → ℕ → ℕ → Type 0
FindsHolder s addr r =
    ((r ≡ 0) × ((j : ℕ) → j < length s.vertices → contains_at s addr j ≡ false))
    ⊎ ((j : ℕ) × (j < length s.vertices)
        × (r ≡ get_or s.vertices j 0)
        × (contains_at s addr j ≡ true))

pub block_address-some :
    (h : Heap) (p : ℕ) (v : Vertex) → h p ≡ some v → block_address h p ≡ get v.address
unfolding block_address
block_address-some h p v e = rw (e, block_address) refl

contains_span :
    (v : Vertex) (addr : ℕ)
    → get v.address + v.block_size < 2 ^ 64
    → contains v addr ≡ true
    → (get v.address ≤ addr) × (addr < get v.address + v.block_size)
unfolding contains
contains_span v addr small h =
    let e : (get v.address + v.block_size) % 2 ^ 64 ≡ get v.address + v.block_size = omega arith in
    (ground arith, ground (arith, e))

module _ (s : VertexStore) (v : IsValid s) (addr : ℕ) where
  span :
      (j : ℕ)
      → j < length s.vertices
      → contains_at s addr j ≡ true
      → (start_at s j ≤ addr) × (addr < start_at s j + size_at s j)
  unfolding contains_at holds_in size_at size_of
  span j lt h =
      let (w, at) = v.live j lt in
      let start : start_at s j ≡ get w.address =
        block_address-some s.heap (get_or s.vertices j 0) w at in
      let size : size_at s j ≡ w.block_size = rw (at) refl in
      let inside : contains w addr ≡ true = subst (λ o. holds_in addr o ≡ true) at h in
      let (low, high) = contains_span w addr (omega (arith, v.bounded j lt, start, size)) inside in
      (omega (arith, start, low), omega (arith, start, size, high))

  check_at_lem :
      (j : ℕ)
      → j < length s.vertices
      → check_at s addr j ≡ ok (if contains_at s addr j then get_or s.vertices j 0 else 0)
  unfolding check_at contains_at holds_in
  check_at_lem j lt =
      let (w, at) = v.live j lt in rw (read-some s.heap (get_or s.vertices j 0) w at, at) refl

  none_before :
      (i j : ℕ) → i < length s.vertices → start_at s i ≤ addr → j < i → contains_at s addr j ≡ false
  none_before i j lt front less = elim (Bool-cases (contains_at s addr j)) [
    | inl inside ↦
        let (low, high) = span j (omega arith) inside in
        absurd (omega (arith, v.apart i j, v.apart j i less lt, high))
    | inr outside ↦ outside
  ]

  none_behind : (j : ℕ) → j < length s.vertices → addr < start_at s j → contains_at s addr j ≡ false
  none_behind j lt behind = elim (Bool-cases (contains_at s addr j)) [
    | inl inside ↦ let (low, high) = span j lt inside in absurd (omega arith)
    | inr outside ↦ outside
  ]

  -- The last check decides, when only the vertex at `i` and the one at the bound are left.
  finish :
      (i bound : ℕ)
      → i < length s.vertices
      → ((j : ℕ) → j < i → start_at s i < addr)
      → (bound < length s.vertices → contains_at s addr bound ≡ false)
      → ((j : ℕ) → bound ≤ j → j < length s.vertices → addr ≤ start_at s j)
      → bound ≤ i + 1
      → Returns (check_at s addr i) (FindsHolder s addr)
  finish i bound lt front at_bound behind near = elim (Bool-cases (contains_at s addr i)) [
    | inl inside ↦
        (get_or s.vertices i 0, rw (check_at_lem i lt, inside) refl, inr (i, lt, refl, inside))
    | inr outside ↦ (
      0,
      rw (check_at_lem i lt, outside) refl,
      inl (
        refl,
        λ j j_lt. elim (Bool-cases (ltb j i)) [
          | inl less ↦
              let low = front j (ground arith) in none_before i j lt (omega arith) (ground arith)
          | inr not_less ↦ elim (Bool-cases (j == i)) [
            | inl same ↦ let e : j ≡ i = (==_iff j i).0 same in rw (e) outside
            | inr other ↦ elim (Bool-cases (j == bound)) [
              | inl same ↦
                  let e : j ≡ bound = (==_iff j bound).0 same in rw (e) (at_bound (omega arith))
              | inr beyond ↦
                  let after : bound < j = ground arith in
                  none_behind j j_lt (omega (arith, behind bound, v.ascending bound j after j_lt))
            ]
          ]
        ],
      ),
    )
  ]

  check_from-finds :
      (bound : ℕ)
      → 0 < length s.vertices
      → bound ≤ length s.vertices
      → ((j : ℕ) → j < bound → start_at s j < addr)
      → ((j : ℕ) → bound ≤ j → j < length s.vertices → addr ≤ start_at s j)
      → Returns (check_from s addr bound) (FindsHolder s addr)
  unfolding check_from contains_at holds_in
  check_from-finds bound filled le before behind = elim (Bool-cases (bound == length s.vertices)) [
    | inl last ↦
        let e : bound ≡ length s.vertices = (==_iff bound (length s.vertices)).0 last in
        let (r, run, post) =
          finish (bound - 1) bound (omega arith) (λ j less. before (bound - 1) (omega arith))
            (λ lt. absurd (omega arith)) behind (omega arith) in
        (r, rw (last) run, post)
    | inr more ↦
        let lt : bound < length s.vertices = ground arith in
        let (w, at) = v.live bound lt in
        let here : contains_at s addr bound ≡ contains w addr = rw (at) refl in
        let found = read-some s.heap (get_or s.vertices bound 0) w at in
        elim (Bool-cases (contains w addr)) [
          | inl inside ↦ (
            get_or s.vertices bound 0,
            rw (more, found, inside) refl,
            inr (bound, lt, refl, rw (at) inside),
          )
          | inr outside ↦
              let i : ℕ = if bound == 0 then bound else bound - 1 in
              let at_bound : contains_at s addr bound ≡ false = rw (at) outside in
              let (r, run, post) =
                finish i bound (ground arith) (λ j less. before i (ground arith)) (λ lt. at_bound)
                  behind (ground arith) in
              (r, rw (more, found, outside) run, post)
        ]
  ]

-- `GetContainerVertex` of a valid store ends, for an address that is a multiple of four, and
-- returns the vertex of the block that holds the address, or null if no block does, given that
-- `lower_bound` of the ordered set finds the first element that is not less than the key.
pub get_container_vertex-finds :
    (around : Surroundings) (s : VertexStore) (addr : ℕ)
    → IsLowerBound around.ordered.lower_bound
    → IsValid s
    → addr % 4 ≡ 0
    → Returns (get_container_vertex around s addr) (FindsHolder s addr)
unfolding get_container_vertex bound_of
get_container_vertex-finds around s addr law v aligned =
    let exact = get_aligned addr aligned in
    let (le, before, behind) = law (block_address s.heap) (get addr) s.vertices v.ascending in
    elim (Bool-cases (length s.vertices == 0)) [
      | inl empty ↦ (0, rw (empty) refl, inl (refl, λ j lt. absurd (ground (arith, empty))))
      | inr filled ↦
          let (r, run, post) =
            check_from-finds s v addr (bound_of around s addr) (ground arith) le
              (λ j lt. omega (arith, before j lt)) (λ j low lt. omega (arith, behind j low lt)) in
          (r, rw (filled) run, post)
    ]
