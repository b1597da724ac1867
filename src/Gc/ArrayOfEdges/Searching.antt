-- ===== src/Gc/ArrayOfEdges/Searching.antt =====
-- `Search` of 3FD/gc_arrayofedges.cpp: a scan of a short array, bisection of a longer one.
use fd.Base.{
  ℕ, zero, suc, ◌+◌, ◌-◌, ◌/◌, ◌≡◌, refl, ◌≢◌, List, [], ◌∷◌, arith, ◌≤◌, ◌<◌, ltb, leb,
  if◌then◌else◌, ◌==◌, length, get_or, IsSorted, count, Bool-cases, inl, inr, Option, none, some,
  ok, Returns, get_or_mono,
}
use fd.Gc.ArrayOfEdges.{index_of, bisect, search_edge}

-- The scan stops at a match, or at the end where there is none.
index_of-absent : (what : ℕ) (xs : List ℕ) → count what xs ≡ 0 → index_of what xs ≡ length xs
unfolding index_of
index_of-absent what [] h = refl
index_of-absent what (x ∷ xs) h = ground (arith, index_of-absent what xs)

index_of-present :
    (what : ℕ) (xs : List ℕ)
    → 0 < count what xs
    → (index_of what xs < length xs) × (get_or xs (index_of what xs) 0 ≡ what)
unfolding index_of
index_of-present what [] h = absurd (omega arith)
index_of-present what (x ∷ xs) h = elim (Bool-cases (x == what)) [
  | inl e ↦ rw e (ground arith, ground arith)
  | inr e ↦ let (lt, eq) = index_of-present what xs (ground arith) in rw e (omega arith, eq)
]

-- What the bisection of [left, right) returns: a place of `what`, or the null pointer if no
-- place in the interval holds it.
abbrev Found : List ℕ → ℕ → ℕ → ℕ → Option ℕ → Type 0
Found xs what left right (some i) = (left ≤ i) × (i < right) × (get_or xs i 0 ≡ what)
Found xs what left right none = (i : ℕ) → left ≤ i → i < right → get_or xs i 0 ≢ what

module _ (xs : List ℕ) (what left right : ℕ) (s : IsSorted xs) (le : right ≤ length xs) where
  -- Above a larger element there is no match, and below a smaller one.
  Found-lower :
      (m : ℕ) (o : Option ℕ)
      → m < right
      → what < get_or xs m 0
      → Found xs what left m o
      → Found xs what left right o
  Found-lower m (some i) lt v f = (f.0, omega arith, f.2)
  Found-lower m none lt v f = λ i lo hi e. elim (Bool-cases (ltb i m)) [
    | inl below ↦ f i lo (ground arith) e
    | inr above ↦ absurd (omega (arith, get_or_mono xs m i s (ground arith) (omega arith), e))
  ]

  Found-upper :
      (m : ℕ) (o : Option ℕ)
      → left ≤ m
      → m < right
      → get_or xs m 0 < what
      → Found xs what (m + 1) right o
      → Found xs what left right o
  Found-upper m (some i) lo lt v f = (omega arith, f.1, f.2)
  Found-upper m none lo lt v f = λ i below hi e. elim (Bool-cases (ltb m i)) [
    | inl above ↦ f i (ground arith) hi e
    | inr least ↦ absurd (omega (arith, get_or_mono xs i m s (ground arith) (omega arith), e))
  ]

bisect-Found :
    (fuel : ℕ) (xs : List ℕ) (left right what : ℕ)
    → IsSorted xs
    → right ≤ length xs
    → left < right
    → right - left ≤ fuel
    → Returns (bisect fuel xs left right what) (Found xs what left right)
unfolding bisect
bisect-Found zero xs left right what s le lt h = absurd (omega arith)
bisect-Found (suc fuel) xs left right what s le lt h =
    let m = left + (right - left) / 2 in
    let lo : left ≤ m = omega arith in
    let hi : m < right = omega arith in
    elim (Bool-cases (ltb what (get_or xs m 0))) [
      | inl smaller ↦ elim (Bool-cases (ltb 0 (m - left))) [
        | inl more ↦
            let (o, run, f) =
              bisect-Found fuel xs left m what s (omega arith) (ground arith) (omega arith) in
            (
              o,
              rw (smaller, more, bisect) run,
              Found-lower xs what left right s le m o hi (ground arith) f,
            )
        | inr done ↦ (
          none,
          rw (smaller, done, bisect),
          Found-lower xs what left right s le m none hi (ground arith)
              (λ i a b e. absurd (ground arith)),
        )
      ]
      | inr larger ↦ elim (Bool-cases (ltb (get_or xs m 0) what)) [
        | inl less ↦ elim (Bool-cases (ltb 0 (right - (m + 1)))) [
          | inl more ↦
              let (o, run, f) =
                bisect-Found fuel xs (m + 1) right what s le (ground arith) (omega arith) in
              (
                o,
                rw (larger, less, more, bisect) run,
                Found-upper xs what left right s le m o lo hi (ground arith) f,
              )
          | inr done ↦ (
            none,
            rw (larger, less, done, bisect),
            Found-upper xs what left right s le m none lo hi (ground arith)
                (λ i a b e. absurd (ground arith)),
          )
        ]
        | inr same ↦ (some m, rw (larger, same, bisect), (lo, hi, ground arith))
      ]
    ]

count-get_or : (xs : List ℕ) (i : ℕ) → i < length xs → 0 < count (get_or xs i 0) xs
count-get_or [] i h = absurd (omega arith)
count-get_or (x ∷ xs) zero h = ground arith
count-get_or (x ∷ xs) (suc i) h = ground (arith, count-get_or xs i (omega arith))

Found-absent :
    (xs : List ℕ) (what : ℕ) (o : Option ℕ)
    → Found xs what 0 (length xs) o
    → count what xs ≡ 0
    → o ≡ none
Found-absent xs what none f h = refl
Found-absent xs what (some i) f h = absurd (omega (arith, rw f.2 at (count-get_or xs i f.1)))

some_index :
    (what : ℕ) (xs : List ℕ)
    → 0 < count what xs
    → (i : ℕ) × (i < length xs) × (get_or xs i 0 ≡ what)
some_index what xs h = let (lt, e) = index_of-present what xs h in (index_of what xs, lt, e)

Found-present :
    (xs : List ℕ) (what : ℕ) (o : Option ℕ)
    → Found xs what 0 (length xs) o
    → 0 < count what xs
    → (i : ℕ) × (o ≡ some i) × (i < length xs) × (get_or xs i 0 ≡ what)
Found-present xs what (some i) f h = (i, refl, f.1, f.2)
Found-present xs what none f h =
    let (i, lt, e) = some_index what xs h in absurd (f i (omega arith) lt e)

-- `Search` in a sorted array that holds the edge ends, and returns an index where it stands, by
-- the scan of a short array as by the bisection of a long one.
pub search_edge-present :
    (xs : List ℕ) (what : ℕ)
    → IsSorted xs
    → 0 < count what xs
    → (i : ℕ) × (search_edge xs what ≡ ok (some i)) × (i < length xs) × (get_or xs i 0 ≡ what)
unfolding search_edge
search_edge-present xs what s h = elim (Bool-cases (leb (length xs) 7)) [
  | inl short ↦ let (lt, e) = index_of-present what xs h in (index_of what xs, rw short, lt, e)
  | inr long ↦
      let (o, run, f) =
        bisect-Found (length xs) xs 0 (length xs) what s (omega arith) (ground arith)
          (omega arith) in
      let (i, e, lt, g) = Found-present xs what o f h in (i, rw (long, run, e), lt, g)
]

-- Where there is no such edge, a long array gives the null pointer, and a short one its end.
pub search_edge-absent :
    (xs : List ℕ) (what : ℕ)
    → IsSorted xs
    → count what xs ≡ 0
    → search_edge xs what ≡ ok (if leb (length xs) 7 then some (length xs) else none)
unfolding search_edge
search_edge-absent xs what s h = elim (Bool-cases (leb (length xs) 7)) [
  | inl short ↦ rw (short, index_of-absent what xs h)
  | inr long ↦
      let (o, run, f) =
        bisect-Found (length xs) xs 0 (length xs) what s (omega arith) (ground arith)
          (omega arith) in
      rw (long, run, Found-absent xs what o f h)
]
