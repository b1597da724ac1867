-- ===== src/Gc/AddressesHashTable/Probing.antt =====
-- The linear probe of 3FD/gc_addresseshashtable.cpp comes to an element with the property if
-- there is one, and to none otherwise.
use native.Mathlib.Nat.{mod-lt, pow-suc}
use fd.Base.{
  ℕ, zero, suc, ◌+◌, ◌-◌, ◌^◌, ◌≡◌, refl, Bool, true, false, if◌then◌else◌, ◌==◌, ==_iff, ltb,
  length, get_or, arith, ◌<◌, ◌≤◌, Bool-cases, inl, inr, Returns, stop, no_return,
}
use fd.Gc.AddressesHashTable.{Element, Buckets, vacant, probe, next_index, xor_fold}

pub pow_pos : (n : ℕ) → 0 < 2 ^ n
pow_pos zero = omega arith
pow_pos (suc n) = rw (pow-suc 2 n) (omega (arith, pow_pos n))

-- The hash is an index of a table of its size.
pub xor_fold-lt : (h bits : ℕ) → xor_fold h bits < 2 ^ bits
unfolding xor_fold
xor_fold-lt h bits = mod-lt _ (pow_pos bits)

-- How many steps a probe goes from `idx` to `k`, round a table of `n`.
abbrev distance : ℕ → ℕ → ℕ → ℕ
distance n idx k = if ltb idx k then k - idx else k + n - idx

probe_lem :
    (stops : Element → Bool) (fuel : ℕ) (bs : Buckets) (idx k : ℕ)
    → k < length bs
    → stops (get_or bs k vacant) ≡ true
    → idx < length bs
    → distance (length bs) idx k ≤ fuel
    → Returns (probe stops fuel bs idx) λ j. (j < length bs) × (stops (get_or bs j vacant) ≡ true)
unfolding probe
probe_lem stops zero bs idx k lt at i d = absurd (ground arith)
probe_lem stops (suc fuel) bs idx k lt at i d =
    let j = next_index (length bs) idx in
    let inside : j < length bs = ground arith in
    elim (Bool-cases (stops (get_or bs j vacant))) [
      | inl e ↦ (j, rw (e, probe), (inside, e))
      | inr e ↦ elim (Bool-cases (j == k)) [
        | inl same ↦ absurd (let k_j : j ≡ k = (==_iff j k).0 same in cc)
        | inr other ↦
            let (r, run, post) = probe_lem stops fuel bs j k lt at inside (ground arith) in
            (r, rw (e, probe) run, post)
      ]
    ]

-- A full round is enough.
pub probe_finds :
    (stops : Element → Bool) (bs : Buckets) (idx k : ℕ)
    → k < length bs
    → stops (get_or bs k vacant) ≡ true
    → idx < length bs
    → Returns
        (probe stops (length bs) bs idx)
        λ j. (j < length bs) × (stops (get_or bs j vacant) ≡ true)
probe_finds stops bs idx k lt at i = probe_lem stops (length bs) bs idx k lt at i (ground arith)

pub probe_fails :
    (stops : Element → Bool) (fuel : ℕ) (bs : Buckets) (idx : ℕ)
    → ((j : ℕ) → stops (get_or bs j vacant) ≡ false)
    → probe stops fuel bs idx ≡ stop no_return
unfolding probe
probe_fails stops zero bs idx none_fits = refl
probe_fails stops (suc fuel) bs idx none_fits =
    rw (none_fits (next_index (length bs) idx), probe)
      (probe_fails stops fuel bs (next_index (length bs) idx) none_fits)
