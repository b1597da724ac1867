-- ===== src/Gc/AddressesHashTable/Removal.antt =====
-- What `Remove` of 3FD/gc_addresseshashtable.cpp does to the elements of a table.
use fd.Base.{
  ℕ, ◌+◌, ◌-◌, ◌*◌, ◌^◌, ◌≡◌, refl, sym, ◌∙◌, ap, Bool, true, false, ltb, leb, ◌&&◌, length, get_or,
  set, replicate, length-set, length-replicate, arith, ◌<◌, ◌≤◌, Bool-cases, inl, inr, Returns,
}
use fd.Gc.AddressesHashTable.{
  Element, Buckets, AddressesHashTable, Settings, vacant, is_vacant, shrink_table, remove_element,
}
use fd.Gc.AddressesHashTable.Tally.{weight, tally, any, tally-set, tally-replicate}
use fd.Gc.AddressesHashTable.Rehash.{rehash_lem}
use fd.Gc.AddressesHashTable.Contract.{IsValid, Lawful, pow_double}

shrink_table-IsValid :
    (s : Settings) (t : AddressesHashTable)
    → IsValid t
    → length t.buckets ≡ 2 ^ t.out_hash_size_in_bits
    → 0 < t.out_hash_size_in_bits
    → 2 * t.elements_count ≤ length t.buckets
    → Returns
        (shrink_table s t)
        λ t'. IsValid t' × ((has : Element → Bool) → tally has t'.buckets ≡ tally has t.buckets)
unfolding shrink_table
shrink_table-IsValid s t v size pos half =
    let bits : ℕ = t.out_hash_size_in_bits - 1 in
    let step : bits + 1 ≡ t.out_hash_size_in_bits = omega arith in
    let double : 2 ^ t.out_hash_size_in_bits ≡ 2 * 2 ^ bits =
      ap (λ n. 2 ^ n) (sym step) ∙ pow_double bits in
    let fits : t.elements_count ≤ 2 ^ bits = omega (arith, double, size, half) in
    let asserted : leb t.elements_count (2 ^ bits) ≡ true = ground (arith, fits) in
    let size' = length-replicate (2 ^ bits) vacant in
    let (bs, run, (same, counts)) =
      rehash_lem bits t.buckets (replicate (2 ^ bits) vacant) size'
        (omega (arith, tally-replicate any (2 ^ bits), fits, v.counted, size')) in
    (
      record t { buckets = bs; out_hash_size_in_bits = bits },
      rw (asserted, run) refl,
      (
        record {
          sized = inr (same ∙ size');
          counted = omega (arith, counts any, tally-replicate any (2 ^ bits), v.counted);
        },
        λ has. omega (arith, counts has, tally-replicate has (2 ^ bits)),
      ),
    )

-- `Remove` of an element that is not vacant ends, keeps the table valid, and takes nothing but
-- that element, when the settings are lawful and the table valid.
pub remove_element-IsValid :
    (s : Settings) (t : AddressesHashTable) (idx : ℕ)
    → Lawful s
    → IsValid t
    → idx < length t.buckets
    → is_vacant (get_or t.buckets idx vacant) ≡ false
    → Returns (remove_element s t idx) λ t'.
      IsValid t'
      × ((has : Element → Bool)
          → tally has t'.buckets + weight has (get_or t.buckets idx vacant) ≡ tally has t.buckets)
unfolding remove_element
remove_element-IsValid s t idx lawful v lt full =
    let e : Element = get_or t.buckets idx vacant in
    let one : weight any e ≡ 1 = rw (full) refl in
    let bs : Buckets = set t.buckets idx vacant in
    let size' = length-set t.buckets idx vacant in
    let size : length t.buckets ≡ 2 ^ t.out_hash_size_in_bits = elim v.sized [
      | inl z ↦ absurd (omega (arith, z))
      | inr z ↦ z
    ] in
    let law : (has : Element → Bool) → tally has bs + weight has e ≡ tally has t.buckets =
      λ has. omega (arith, tally-set has t.buckets idx vacant lt) in
    let t' : AddressesHashTable = record t {
      buckets = bs;
      elements_count = t.elements_count - 1;
    } in
    let asserted : (ltb 0 t.elements_count && ltb idx (length t.buckets)) ≡ true =
      ground (arith, law any, v.counted, one, lt) in
    let v' : IsValid t' = record {
      sized = inr (size' ∙ size);
      counted = omega (arith, law any, v.counted);
    } in
    elim (Bool-cases (
      ltb s.initial_size_log2 t.out_hash_size_in_bits
      && s.falls_below (t.elements_count - 1) (length bs))) [
        | inl below ↦
            let more : s.initial_size_log2 < t.out_hash_size_in_bits = ground arith in
            let falls : s.falls_below (t.elements_count - 1) (length bs) ≡ true = ground arith in
            let (r, run, post) =
              shrink_table-IsValid s t' v' (size' ∙ size) (omega (arith, more))
                (lawful.below_half (t.elements_count - 1) (length bs) falls) in
            (r, rw (asserted, below) run, (post.0, λ has. omega (arith, post.1 has, law has)))
        | inr above ↦ (t', rw (asserted, above) refl, (v', law))
      ]
