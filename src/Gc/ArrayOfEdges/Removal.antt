-- ===== src/Gc/ArrayOfEdges/Removal.antt =====
-- `RemoveEdgeImpl` of 3FD/gc_arrayofedges.cpp: closing the gap behind a removed edge.
use fd.Base.{
  ℕ, zero, suc, ◌-◌, ◌≡◌, refl, ◌∙◌, List, [], ◌∷◌, arith, ◌<◌, length, get_or, set, length-set,
  erase_at,
}
use fd.Gc.ArrayOfEdges.{shift_down, drop_last}

shift_down-cons :
    (n idx x : ℕ) (xs : List ℕ) → shift_down n (suc idx) (x ∷ xs) ≡ x ∷ shift_down n idx xs
unfolding shift_down
shift_down-cons zero idx x xs = refl
shift_down-cons (suc n) idx x xs =
    shift_down-cons n (suc idx) x (set xs idx (get_or xs (suc idx) 0))

length-shift_down : (n idx : ℕ) (xs : List ℕ) → length (shift_down n idx xs) ≡ length xs
unfolding shift_down
length-shift_down zero idx xs = refl
length-shift_down (suc n) idx xs =
    length-shift_down n (suc idx) _ ∙ length-set xs idx (get_or xs (suc idx) 0)

drop_last-cons : (x : ℕ) (xs : List ℕ) → 0 < length xs → drop_last (x ∷ xs) ≡ x ∷ drop_last xs
unfolding drop_last
drop_last-cons x [] h = absurd (omega arith)
drop_last-cons x (y ∷ ys) h = refl

shift_down-head : (x : ℕ) (xs : List ℕ) → drop_last (shift_down (length xs) 0 (x ∷ xs)) ≡ xs
unfolding shift_down
shift_down-head x [] = unfold drop_last in refl
shift_down-head x (y ∷ ys) = rw (
  shift_down-cons (length ys) 0 y (y ∷ ys),
  drop_last-cons y (shift_down (length ys) 0 (y ∷ ys))
      (omega (arith, length-shift_down (length ys) 0 (y ∷ ys))),
  shift_down-head y ys,
)

-- The shift and the smaller size together take out the element at the index.
pub drop_last-shift_down :
    (xs : List ℕ) (i n : ℕ)
    → i < length xs
    → n ≡ length xs - 1 - i
    → drop_last (shift_down n i xs) ≡ erase_at xs i
drop_last-shift_down [] i n h e = absurd (omega arith)
drop_last-shift_down (x ∷ xs) zero n h e =
    let e' : n ≡ length xs = omega arith in rw e' (shift_down-head x xs)
drop_last-shift_down (x ∷ xs) (suc i) n h e = rw (
  shift_down-cons n i x xs,
  drop_last-cons x (shift_down n i xs) (omega (arith, length-shift_down n i xs)),
  drop_last-shift_down xs i n (omega arith) (omega arith),
)
