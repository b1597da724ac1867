-- ===== src/Gc/AddressesHashTable/Rehash.antt =====
-- The loops that move the elements of a table to another one (3FD/gc_addresseshashtable.cpp,
-- `ExpandTable` and `ShrinkTable`).
use fd.Base.{
  ℕ, ◌+◌, ◌^◌, ◌≡◌, refl, ◌∙◌, Bool, true, [], ◌∷◌, length, get_or, set, length-set, arith, ◌<◌,
  ◌≤◌, Bool-cases, inl, inr, Returns,
}
use fd.Gc.AddressesHashTable.{
  Element, Buckets, vacant, is_vacant, vacancy, place, rehash, xor_fold, hash,
}
use fd.Gc.AddressesHashTable.Tally.{weight, tally, any, occupied, tally-set, vacant_index}
use fd.Gc.AddressesHashTable.Probing.{xor_fold-lt, probe_finds}

-- What a run of `place` or `rehash` leaves: a table of the same size with `extra` more elements.
abbrev pub Holds : Buckets → ((Element → Bool) → ℕ) → Buckets → Type 0
Holds bs extra bs' =
    (length bs' ≡ length bs) × ((has : Element → Bool) → tally has bs' ≡ tally has bs + extra has)

pub weight-vacant : (has : Element → Bool) (e : Element) → is_vacant e ≡ true → weight has e ≡ 0
weight-vacant has e v = ground arith

vacancy_lem :
    (bs : Buckets) (idx : ℕ)
    → idx < length bs
    → occupied bs < length bs
    → Returns (vacancy bs idx) λ j. (j < length bs) × (is_vacant (get_or bs j vacant) ≡ true)
unfolding vacancy
vacancy_lem bs idx lt free = elim (Bool-cases (is_vacant (get_or bs idx vacant))) [
  | inl e ↦ (idx, rw (e) refl, (lt, e))
  | inr e ↦
      let (k, k_lt, k_vacant) = vacant_index bs free in
      let (j, run, post) = probe_finds is_vacant bs idx k k_lt k_vacant lt in (j, rw (e) run, post)
]

place_lem :
    (bits : ℕ) (e : Element) (bs : Buckets)
    → length bs ≡ 2 ^ bits
    → occupied bs < length bs
    → Returns (place bits e bs) (Holds bs λ has. weight has e)
unfolding place
place_lem bits e bs size free =
    let start : ℕ = xor_fold (hash e.sptr_object_addr) bits in
    let lt : start < length bs = rw (size) (xor_fold-lt _ bits) in
    let (j, run, (j_lt, v)) = vacancy_lem bs start lt free in
    (
      set bs j e,
      rw (run) refl,
      (
        length-set bs j e,
        λ has. omega (arith, tally-set has bs j e j_lt, weight-vacant has (get_or bs j vacant) v),
      ),
    )

-- With room for all the elements the loop ends, and moves each of them.
pub rehash_lem :
    (bits : ℕ) (es bs : Buckets)
    → length bs ≡ 2 ^ bits
    → occupied bs + occupied es ≤ length bs
    → Returns (rehash bits es bs) (Holds bs λ has. tally has es)
unfolding rehash
rehash_lem bits [] bs size room = (bs, refl, (refl, λ has. omega arith))
rehash_lem bits (e ∷ es) bs size room = elim (Bool-cases (is_vacant e)) [
  | inl v ↦
      let (bs', run, (same, counts)) =
        rehash_lem bits es bs size (omega (arith, weight-vacant any e v)) in
      (bs', rw (v, rehash) run, (same, λ has. omega (arith, counts has, weight-vacant has e v)))
  | inr v ↦
      let one : weight any e ≡ 1 = rw (v) refl in
      let (bs1, run1, (same1, counts1)) = place_lem bits e bs size (omega arith) in
      let (bs2, run2, (same2, counts2)) =
        rehash_lem bits es bs1 (same1 ∙ size) (omega (arith, counts1 any)) in
      (
        bs2,
        rw (v, run1, rehash) run2,
        (same2 ∙ same1, λ has. omega (arith, counts1 has, counts2 has)),
      )
]
