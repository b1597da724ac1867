-- ===== src/Gc/ArrayOfEdges/Sorting.antt =====
-- `InsertionSort` of 3FD/gc_arrayofedges.cpp: the last element is moved into its place.
use fd.Base.{
  ℕ, suc, ◌+◌, ◌-◌, ◌≡◌, refl, List, [], ◌∷◌, ◌++◌, arith, ◌≤◌, ltb, if◌then◌else◌, ◌==◌, length,
  get_or, set, All, IsSorted, count, Bool-cases, inl, inr, length-append,
}
use mathlib.Core.List.{append-nil}
use fd.Gc.ArrayOfEdges.{sift, insertion_sort}

-- `reverse rs ++ zs`
abbrev rev_append : List ℕ → List ℕ → List ℕ
rev_append [] zs = zs
rev_append (r ∷ rs) zs = rev_append rs (r ∷ zs)

-- Where the element `v` ends between the elements `rs` (nearest first) on its left and `zs`.
abbrev settle : List ℕ → ℕ → List ℕ → List ℕ
settle [] v zs = v ∷ zs
settle (r ∷ rs) v zs = if ltb v r then settle rs v (r ∷ zs) else rev_append rs (r ∷ v ∷ zs)

get_or-rev_append :
    (rs zs : List ℕ) (i k : ℕ) → i ≡ length rs + k → get_or (rev_append rs zs) i 0 ≡ get_or zs k 0
get_or-rev_append [] zs i k e = let e' : i ≡ k = omega arith in rw e' refl
get_or-rev_append (r ∷ rs) zs i k e = get_or-rev_append rs (r ∷ zs) i (suc k) (omega arith)

set-rev_append :
    (rs zs : List ℕ) (i k v : ℕ)
    → i ≡ length rs + k
    → set (rev_append rs zs) i v ≡ rev_append rs (set zs k v)
set-rev_append [] zs i k v e = let e' : i ≡ k = omega arith in rw e' refl
set-rev_append (r ∷ rs) zs i k v e = set-rev_append rs (r ∷ zs) i (suc k) v (omega arith)

sift-settle :
    (rs : List ℕ) (v : ℕ) (zs : List ℕ) → sift (rev_append rs (v ∷ zs)) (length rs) ≡ settle rs v zs
unfolding sift
sift-settle [] v zs = refl
sift-settle (r ∷ rs) v zs = rw (
  get_or-rev_append rs (r ∷ v ∷ zs) (suc (length rs)) 1 (omega arith),
  get_or-rev_append rs (r ∷ v ∷ zs) (length rs) 0 (omega arith),
  set-rev_append rs (r ∷ v ∷ zs) (suc (length rs)) 1 r (omega arith),
  set-rev_append rs (r ∷ r ∷ zs) (length rs) 0 v (omega arith),
  sift-settle rs v (r ∷ zs),
)

-- Both directions of reading a sorted list around a point.
All-le_trans : (a b : ℕ) (zs : List ℕ) → a ≤ b → All (λ y. b ≤ y) zs → All (λ y. a ≤ y) zs
All-le_trans a b [] h al = tt
All-le_trans a b (z ∷ zs) h al = (omega arith, All-le_trans a b zs h al.1)

-- The elements left of a point, nearest first: descending, and at most every element of `zs`.
abbrev Descends : List ℕ → List ℕ → Type 0
Descends [] zs = Unit
Descends (r ∷ rs) zs = All (λ y. r ≤ y) zs × Descends rs (r ∷ zs)

rev_append-IsSorted : (rs zs : List ℕ) → Descends rs zs → IsSorted zs → IsSorted (rev_append rs zs)
rev_append-IsSorted [] zs d s = s
rev_append-IsSorted (r ∷ rs) zs d s = rev_append-IsSorted rs (r ∷ zs) d.1 (d.0, s)

IsSorted-rev_append : (rs zs : List ℕ) → IsSorted (rev_append rs zs) → Descends rs zs × IsSorted zs
IsSorted-rev_append [] zs s = (tt, s)
IsSorted-rev_append (r ∷ rs) zs s =
    let (d, t) = IsSorted-rev_append rs (r ∷ zs) s in ((t.0, d), t.1)

-- Another element behind the point that is at least the nearest one.
Descends-cons :
    (rs zs ys : List ℕ)
    → Descends rs zs
    → ((a : ℕ) → All (λ y. a ≤ y) zs → All (λ y. a ≤ y) ys)
    → Descends rs ys
Descends-cons [] zs ys d h = tt
Descends-cons (r ∷ rs) zs ys d h =
    (h r d.0, Descends-cons rs (r ∷ zs) (r ∷ ys) d.1 (λ a al. (al.0, h a al.1)))

settle-IsSorted :
    (rs : List ℕ) (v : ℕ) (zs : List ℕ)
    → Descends rs zs
    → IsSorted zs
    → All (λ y. v ≤ y) zs
    → IsSorted (settle rs v zs)
settle-IsSorted [] v zs d s al = (al, s)
settle-IsSorted (r ∷ rs) v zs d s al = elim (Bool-cases (ltb v r)) [
  | inl e ↦ rw e (settle-IsSorted rs v (r ∷ zs) d.1 (d.0, s) (ground arith, al))
  | inr e ↦
      let near : r ≤ v = ground arith in
      rw e (
        rev_append-IsSorted rs (r ∷ v ∷ zs)
          (Descends-cons rs (r ∷ zs) (r ∷ v ∷ zs) d.1 (λ a h. (h.0, (omega arith, h.1))))
          ((ground arith, d.0), (al, s)))
]

count-rev_append : (a : ℕ) (rs zs : List ℕ) → count a (rev_append rs zs) ≡ count a rs + count a zs
count-rev_append a [] zs = omega arith
count-rev_append a (r ∷ rs) zs = omega (arith, count-rev_append a rs (r ∷ zs))

count-settle :
    (a : ℕ) (rs : List ℕ) (v : ℕ) (zs : List ℕ)
    → count a (settle rs v zs) ≡ count a rs + count a (v ∷ zs)
count-settle a [] v zs = omega arith
count-settle a (r ∷ rs) v zs = elim (Bool-cases (ltb v r)) [
  | inl e ↦ rw e (omega (arith, count-settle a rs v (r ∷ zs)))
  | inr e ↦ rw e (omega (arith, count-rev_append a rs (r ∷ v ∷ zs)))
]

rev_append-rev_append :
    (xs ys zs : List ℕ) → rev_append (rev_append xs ys) zs ≡ rev_append ys (xs ++ zs)
rev_append-rev_append [] ys zs = refl
rev_append-rev_append (x ∷ xs) ys zs = rev_append-rev_append xs (x ∷ ys) zs

length-rev_append : (xs ys : List ℕ) → length (rev_append xs ys) ≡ length xs + length ys
length-rev_append [] ys = omega arith
length-rev_append (x ∷ xs) ys = omega (arith, length-rev_append xs (x ∷ ys))

-- The sort after a store at the end is one insertion.
insertion_sort-append :
    (xs : List ℕ) (v : ℕ) → insertion_sort (xs ++ v ∷ []) ≡ settle (rev_append xs []) v []
unfolding insertion_sort
insertion_sort-append xs v =
    let back = rev_append-rev_append xs [] (v ∷ []) in
    let place : length (xs ++ v ∷ []) - 1 ≡ length (rev_append xs []) =
      omega (arith, length-append xs (v ∷ []), length-rev_append xs []) in
    rw (place, ← back) (sift-settle (rev_append xs []) v [])

pub insertion_sort-IsSorted :
    (xs : List ℕ) (v : ℕ) → IsSorted xs → IsSorted (insertion_sort (xs ++ v ∷ []))
insertion_sort-IsSorted xs v s =
    let back = rev_append-rev_append xs [] [] in
    let (d, _) = IsSorted-rev_append (rev_append xs []) [] (rw (back, append-nil) s) in
    rw (insertion_sort-append xs v) (settle-IsSorted (rev_append xs []) v [] d tt tt)

pub count-insertion_sort :
    (a : ℕ) (xs : List ℕ) (v : ℕ)
    → count a (insertion_sort (xs ++ v ∷ [])) ≡ count a xs + (if a == v then 1 else 0)
count-insertion_sort a xs v =
    rw (insertion_sort-append xs v)
      (omega (arith, count-settle a (rev_append xs []) v [], count-rev_append a xs []))

length-settle :
    (rs : List ℕ) (v : ℕ) (zs : List ℕ) → length (settle rs v zs) ≡ length rs + suc (length zs)
length-settle [] v zs = omega arith
length-settle (r ∷ rs) v zs = elim (Bool-cases (ltb v r)) [
  | inl e ↦ rw e (omega (arith, length-settle rs v (r ∷ zs)))
  | inr e ↦ rw e (omega (arith, length-rev_append rs (r ∷ v ∷ zs)))
]

pub length-insertion_sort :
    (xs : List ℕ) (v : ℕ) → length (insertion_sort (xs ++ v ∷ [])) ≡ length xs + 1
length-insertion_sort xs v =
    rw (insertion_sort-append xs v)
      (omega (arith, length-settle (rev_append xs []) v [], length-rev_append xs []))
