-- ===== src/Gc/AddressesHashTable/Tally.antt =====
-- Counting the elements of a table (3FD/gc_addresseshashtable.cpp) that have a property.
use fd.Base.{
  ℕ, zero, suc, ◌+◌, ◌≡◌, refl, Bool, true, [], ◌∷◌, if◌then◌else◌, ◌==◌, length, get_or, set,
  replicate, arith, ◌<◌, ◌≤◌, Bool-cases, inl, inr,
}
use fd.Gc.AddressesHashTable.{Element, Buckets, vacant, is_vacant}

-- What an element adds to the count: nothing if it is vacant.
abbrev pub weight : (Element → Bool) → Element → ℕ
weight has e = if is_vacant e then 0 else if has e then 1 else 0

-- How many of the elements that are not vacant have the property.
abbrev pub tally : (Element → Bool) → Buckets → ℕ
tally has [] = 0
tally has (e ∷ es) = weight has e + tally has es

abbrev pub any : Element → Bool
any _ = true

abbrev pub occupied : Buckets → ℕ
occupied bs = tally any bs

pub tally-set :
    (has : Element → Bool) (bs : Buckets) (i : ℕ) (e : Element)
    → i < length bs
    → tally has (set bs i e) + weight has (get_or bs i vacant) ≡ tally has bs + weight has e
tally-set has [] i e h = absurd (omega arith)
tally-set has (b ∷ bs) zero e h = omega arith
tally-set has (b ∷ bs) (suc i) e h = omega (arith, tally-set has bs i e (omega arith))

pub tally-replicate : (has : Element → Bool) (n : ℕ) → tally has (replicate n vacant) ≡ 0
tally-replicate has zero = refl
tally-replicate has (suc n) = omega (arith, tally-replicate has n)

pub vacant_index :
    (bs : Buckets)
    → occupied bs < length bs
    → (k : ℕ) × (k < length bs) × (is_vacant (get_or bs k vacant) ≡ true)
vacant_index [] h = absurd (omega arith)
vacant_index (b ∷ bs) h = elim (Bool-cases (is_vacant b)) [
  | inl e ↦ (0, omega arith, e)
  | inr e ↦ let (k, lt, v) = vacant_index bs (ground arith) in (suc k, omega arith, v)
]

pub tally_index :
    (has : Element → Bool) (bs : Buckets)
    → 0 < tally has bs
    → (k : ℕ) × (k < length bs) × (weight has (get_or bs k vacant) ≡ 1)
tally_index has [] h = absurd (omega arith)
tally_index has (b ∷ bs) h = elim (Bool-cases (weight has b == 1)) [
  | inl e ↦ (0, omega arith, ground arith)
  | inr e ↦ let (k, lt, v) = tally_index has bs (ground arith) in (suc k, omega arith, v)
]

pub occupied-le : (bs : Buckets) → occupied bs ≤ length bs
occupied-le [] = omega arith
occupied-le (b ∷ bs) = ground (arith, occupied-le bs)
