-- ===== src/Base/Bags.antt =====
-- Sorted lists of numbers, and lists as bags.
use Prim.Native.Nat.{ℕ, zero, suc, ◌+◌, ◌<◌, ◌≤◌}
use mathlib.Core.Path.{◌≡◌}
use mathlib.Core.List.{List, [], ◌∷◌, ◌++◌}
use native.Mathlib.Omega.{arith}
use fd.Base.Tests.{◌==◌, if◌then◌else◌}
use fd.Base.Lists.{length, get_or, All, All-get}

-- How often `a` stands in a list.
abbrev pub count : ℕ → List ℕ → ℕ
count v [] = 0
count v (w ∷ ws) = (if v == w then 1 else 0) + count v ws

-- In ascending order, duplicates allowed.
abbrev pub IsSorted : List ℕ → Type 0
IsSorted [] = Unit
IsSorted (x ∷ xs) = All (λ y. x ≤ y) xs × IsSorted xs

pub count-append : (v : ℕ) (ks ls : List ℕ) → count v (ks ++ ls) ≡ count v ks + count v ls
count-append v [] ls = omega arith
count-append v (k ∷ ks) ls = omega (arith, count-append v ks ls)

pub get_or_mono :
    (xs : List ℕ) (i j : ℕ) → IsSorted xs → i ≤ j → j < length xs → get_or xs i 0 ≤ get_or xs j 0
get_or_mono [] i j s le lt = absurd (omega arith)
get_or_mono (x ∷ xs) zero zero s le lt = omega arith
get_or_mono (x ∷ xs) zero (suc j) s le lt = All-get (λ y. x ≤ y) xs j 0 s.0 (omega arith)
get_or_mono (x ∷ xs) (suc i) zero s le lt = absurd (omega arith)
get_or_mono (x ∷ xs) (suc i) (suc j) s le lt = get_or_mono xs i j s.1 (omega arith) (omega arith)

-- The list without the element at an index.
abbrev pub erase_at : List ℕ → ℕ → List ℕ
erase_at [] i = []
erase_at (x ∷ xs) zero = xs
erase_at (x ∷ xs) (suc i) = x ∷ erase_at xs i

pub count-erase_at :
    (a : ℕ) (xs : List ℕ) (i : ℕ)
    → i < length xs
    → count a (erase_at xs i) + (if a == get_or xs i 0 then 1 else 0) ≡ count a xs
count-erase_at a [] i h = absurd (omega arith)
count-erase_at a (x ∷ xs) zero h = omega arith
count-erase_at a (x ∷ xs) (suc i) h = omega (arith, count-erase_at a xs i (omega arith))

All-erase_at {κ} : (P : ℕ → Type κ) (xs : List ℕ) (i : ℕ) → All P xs → All P (erase_at xs i)
All-erase_at P [] i h = h
All-erase_at P (x ∷ xs) zero h = h.1
All-erase_at P (x ∷ xs) (suc i) h = (h.0, All-erase_at P xs i h.1)

pub erase_at-IsSorted : (xs : List ℕ) (i : ℕ) → IsSorted xs → IsSorted (erase_at xs i)
erase_at-IsSorted [] i s = s
erase_at-IsSorted (x ∷ xs) zero s = s.1
erase_at-IsSorted (x ∷ xs) (suc i) s =
    (All-erase_at (λ y. x ≤ y) xs i s.0, erase_at-IsSorted xs i s.1)

pub length-erase_at : (xs : List ℕ) (i : ℕ) → i < length xs → length (erase_at xs i) + 1 ≡ length xs
length-erase_at [] i h = absurd (omega arith)
length-erase_at (x ∷ xs) zero h = omega arith
length-erase_at (x ∷ xs) (suc i) h = omega (arith, length-erase_at xs i (omega arith))
