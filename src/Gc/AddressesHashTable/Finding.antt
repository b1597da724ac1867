-- ===== src/Gc/AddressesHashTable/Finding.antt =====
-- What `Lookup` of 3FD/gc_addresseshashtable.cpp finds, and that it does not end otherwise.
use fd.Base.{
  ℕ, zero, suc, ◌+◌, ◌^◌, ◌≡◌, refl, Bool, true, false, [], ◌∷◌, ◌==◌, ==_iff, length, get_or,
  arith, ◌<◌, ◌≤◌, Bool-cases, inl, inr, Returns, stop, no_return,
}
use fd.Gc.AddressesHashTable.{
  Element, Buckets, AddressesHashTable, Settings, vacant, lookup, remove, xor_fold, hash,
}
use fd.Gc.AddressesHashTable.Tally.{weight, tally, tally_index}
use fd.Gc.AddressesHashTable.Probing.{xor_fold-lt, probe_finds, probe_fails}
use fd.Gc.AddressesHashTable.Contract.{IsValid, Lawful}
use fd.Gc.AddressesHashTable.Removal.{remove_element-IsValid}

-- Elements with a given key.
abbrev pub has_key : ℕ → Element → Bool
has_key key e = e.sptr_object_addr == key

tally-fits : (has : Element → Bool) (bs : Buckets) → tally has bs ≤ length bs
tally-fits has [] = omega arith
tally-fits has (b ∷ bs) = ground (arith, tally-fits has bs)

pub none_at :
    (key : ℕ) (bs : Buckets)
    → 0 < key
    → tally (has_key key) bs ≡ 0
    → (j : ℕ) → has_key key (get_or bs j vacant) ≡ false
none_at key [] pos none j = ground arith
none_at key (b ∷ bs) pos none zero = ground arith
none_at key (b ∷ bs) pos none (suc j) = none_at key bs pos (omega arith) j

-- In a valid table `Lookup` returns the index of an element with the key, when the key is not null
-- and the table has such an element.
pub lookup-finds :
    (t : AddressesHashTable) (key : ℕ)
    → IsValid t
    → 0 < key
    → 0 < tally (has_key key) t.buckets
    → Returns
        (lookup t key)
        λ idx. (idx < length t.buckets) × ((get_or t.buckets idx vacant).sptr_object_addr ≡ key)
unfolding lookup
lookup-finds t key v pos some_such =
    let le = tally-fits (has_key key) t.buckets in
    let has_buckets : length t.buckets == 0 ≡ false = ground arith in
    let size : length t.buckets ≡ 2 ^ t.out_hash_size_in_bits = elim v.sized [
      | inl z ↦ absurd (omega (arith, z))
      | inr z ↦ z
    ] in
    let start : ℕ = xor_fold (hash key) t.out_hash_size_in_bits in
    let lt : start < length t.buckets = rw (size) (xor_fold-lt _ _) in
    elim (Bool-cases (has_key key (get_or t.buckets start vacant))) [
      | inl e ↦ (start, rw (has_buckets, e) refl, (lt, (==_iff _ key).0 e))
      | inr e ↦
          let (k, k_lt, w) = tally_index (has_key key) t.buckets some_such in
          let at : has_key key (get_or t.buckets k vacant) ≡ true = ground arith in
          let (j, run, (j_lt, j_at)) = probe_finds (has_key key) t.buckets start k k_lt at lt in
          (j, rw (has_buckets, e) run, (j_lt, (==_iff _ key).0 j_at))
    ]

-- In a table with buckets that has no element with a key that is not null, `Lookup` of the key does
-- not end, and neither does `Remove`, whatever the settings.
pub lookup-absent :
    (s : Settings) (t : AddressesHashTable) (key : ℕ)
    → 0 < key
    → 0 < length t.buckets
    → tally (has_key key) t.buckets ≡ 0
    → (lookup t key ≡ stop no_return) × (remove s t key ≡ stop no_return)
unfolding lookup remove
lookup-absent s t key pos size none =
    let has_buckets : length t.buckets == 0 ≡ false = ground arith in
    let never = none_at key t.buckets pos none in
    let start : ℕ = xor_fold (hash key) t.out_hash_size_in_bits in
    let lost = probe_fails (has_key key) (length t.buckets) t.buckets start never in
    (rw (has_buckets, never start) lost, rw (has_buckets, never start, lost) refl)

-- `Remove` of a key that a valid table has and that is not null takes one element with the key and
-- nothing else, and keeps the table valid, when the settings are lawful.
pub remove-IsValid :
    (s : Settings) (t : AddressesHashTable) (key : ℕ)
    → Lawful s
    → IsValid t
    → 0 < key
    → 0 < tally (has_key key) t.buckets
    → Returns (remove s t key) λ t'.
      IsValid t'
      × ((e : Element) × (e.sptr_object_addr ≡ key)
          × ((has : Element → Bool) → tally has t'.buckets + weight has e ≡ tally has t.buckets))
unfolding remove
remove-IsValid s t key lawful v pos some_such =
    let (idx, run, (lt, at)) = lookup-finds t key v pos some_such in
    let (t', run', (v', law)) =
      remove_element-IsValid s t idx lawful v lt (rw (at) (ground arith)) in
    (t', rw (run) run', (v', (get_or t.buckets idx vacant, at, law)))
