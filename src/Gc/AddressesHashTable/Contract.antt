-- ===== src/Gc/AddressesHashTable/Contract.antt =====
-- What `Insert` of 3FD/gc_addresseshashtable.cpp does to the elements of a table.
use native.Mathlib.Nat.{pow-suc}
use fd.Base.{
  ℕ, suc, ◌+◌, ◌*◌, ◌^◌, ◌≡◌, ◌⊎◌, refl, sym, subst, ◌∙◌, Bool, true, false, [], ◌∷◌, if◌then◌else◌,
  ◌==◌, ==_iff, ==_self, ◌||◌, length, get_or, set, replicate, length-set, get_or-set,
  length-replicate, arith, ◌<◌, ◌≤◌, Bool-cases, inl, inr, Returns,
}
use fd.Gc.AddressesHashTable.{
  Element, Buckets, AddressesHashTable, Settings, vacant, is_vacant, store, expand_table, insert,
  xor_fold, hash,
}
use fd.Gc.AddressesHashTable.Tally.{
  weight, tally, any, occupied, tally-set, tally-replicate, vacant_index, occupied-le,
}
use fd.Gc.AddressesHashTable.Probing.{pow_pos, xor_fold-lt, probe_finds}
use fd.Gc.AddressesHashTable.Rehash.{rehash_lem, weight-vacant}

-- A power of two of buckets, if any, and a true count of the elements.
pub record IsValid (t : AddressesHashTable) : Type 0 where
  pub sized : (length t.buckets ≡ 0) ⊎ (length t.buckets ≡ 2 ^ t.out_hash_size_in_bits)
  pub counted : t.elements_count ≡ occupied t.buckets

-- A full table exceeds the threshold of the load, and one that falls below a third of it is at
-- most half full.
pub record Lawful (s : Settings) : Type 0 where
  pub full_exceeds : (c n : ℕ) → s.exceeds c n ≡ false → 0 < n → c < n
  pub below_half : (c n : ℕ) → s.falls_below c n ≡ true → 2 * c ≤ n

-- A valid table that has buckets and a vacant one among them.
HasRoom : AddressesHashTable → Type 0
HasRoom t =
    (length t.buckets ≡ 2 ^ t.out_hash_size_in_bits)
    × (t.elements_count ≡ occupied t.buckets)
    × (occupied t.buckets < length t.buckets)

-- The table `t'` has the elements of `t`, and `e` at `idx` besides.
abbrev pub Inserted : AddressesHashTable → Element → ℕ × AddressesHashTable → Type 0
Inserted t e (idx, t') =
    IsValid t'
    × (idx < length t'.buckets)
    × (get_or t'.buckets idx vacant ≡ e)
    × ((has : Element → Bool) → tally has t'.buckets ≡ tally has t.buckets + weight has e)

tally-none : (has : Element → Bool) (bs : Buckets) → length bs ≡ 0 → tally has bs ≡ 0
tally-none has [] e = refl
tally-none has (b ∷ bs) e = absurd (omega arith)

pub pow_double : (n : ℕ) → 2 ^ (n + 1) ≡ 2 * 2 ^ n
pow_double n = let step : n + 1 ≡ suc n = omega arith in rw (step, pow-suc 2 n) (omega arith)

expand_table-HasRoom :
    (s : Settings) (t : AddressesHashTable)
    → IsValid t
    → Returns
        (expand_table s t)
        λ t'. HasRoom t' × ((has : Element → Bool) → tally has t'.buckets ≡ tally has t.buckets)
unfolding expand_table HasRoom
expand_table-HasRoom s t v = elim (Bool-cases (length t.buckets == 0)) [
  | inl e ↦
      let none : length t.buckets ≡ 0 = (==_iff (length t.buckets) 0).0 e in
      let le = occupied-le t.buckets in
      let size = length-replicate (2 ^ s.initial_size_log2) vacant in
      let empty = tally-replicate any (2 ^ s.initial_size_log2) in
      let pos = pow_pos s.initial_size_log2 in
      (
        record t {
          buckets = replicate (2 ^ s.initial_size_log2) vacant;
          out_hash_size_in_bits = s.initial_size_log2;
        },
        rw (e) refl,
        (
          (size, omega (arith, v.counted), omega arith),
          λ has.
              tally-replicate has (2 ^ s.initial_size_log2) ∙ sym (tally-none has t.buckets none),
        ),
      )
  | inr e ↦
      let bits : ℕ = t.out_hash_size_in_bits + 1 in
      let size = length-replicate (2 ^ bits) vacant in
      let empty = tally-replicate any (2 ^ bits) in
      let now : length t.buckets ≡ 2 ^ t.out_hash_size_in_bits = elim v.sized [
        | inl z ↦ absurd (ground (arith, z))
        | inr z ↦ z
      ] in
      let double : 2 ^ bits ≡ 2 * 2 ^ t.out_hash_size_in_bits =
        pow_double t.out_hash_size_in_bits in
      let pos = pow_pos t.out_hash_size_in_bits in
      let le = occupied-le t.buckets in
      let (bs, run, (same, counts)) =
        rehash_lem bits t.buckets (replicate (2 ^ bits) vacant) size (omega arith) in
      (
        record t { buckets = bs; out_hash_size_in_bits = bits },
        rw (e, run) refl,
        (
          (same ∙ size, omega (arith, counts any, v.counted), omega (arith, counts any)),
          λ has. omega (arith, counts has, tally-replicate has (2 ^ bits)),
        ),
      )
]

store-Inserted :
    (idx : ℕ) (e : Element) (t : AddressesHashTable)
    → HasRoom t
    → idx < length t.buckets
    → is_vacant e ≡ false
    → Returns (store idx e t) (Inserted t e)
unfolding store HasRoom
store-Inserted idx e t (size, counted, free) lt full =
    elim (Bool-cases (is_vacant (get_or t.buckets idx vacant))) [
      | inl v ↦
          let none : (has : Element → Bool) → weight has (get_or t.buckets idx vacant) ≡ 0 =
            λ has. weight-vacant has (get_or t.buckets idx vacant) v in
          let one : weight any e ≡ 1 = rw (full) refl in
          let here : (if idx == idx then e else get_or t.buckets idx vacant) ≡ e =
            rw (==_self idx) refl in
          (
            (
              idx,
              record t { buckets = set t.buckets idx e; elements_count = t.elements_count + 1 },
            ),
            rw (v) refl,
            (
              record {
                sized = inr (length-set t.buckets idx e ∙ size);
                counted = omega (arith, tally-set any t.buckets idx e lt, none any);
              },
              rw (length-set t.buckets idx e) lt,
              get_or-set t.buckets idx idx e vacant lt ∙ here,
              λ has. omega (arith, tally-set has t.buckets idx e lt, none has),
            ),
          )
      | inr v ↦
          let moved : Element = get_or t.buckets idx vacant in
          let stored : Buckets = set t.buckets idx e in
          let size' = length-set t.buckets idx e in
          let one : weight any e ≡ 1 = rw (full) refl in
          let other : weight any moved ≡ 1 = rw (v) refl in
          let (k, k_lt, k_v) =
            vacant_index stored (omega (arith, tally-set any t.buckets idx e lt)) in
          let (j, run, (j_lt, j_v)) = probe_finds is_vacant stored idx k k_lt k_v (rw (size') lt) in
          let here : get_or stored idx vacant ≡ e =
            get_or-set t.buckets idx idx e vacant lt ∙ rw (==_self idx) refl in
          let apart : j == idx ≡ false = elim (Bool-cases (j == idx)) [
            | inl same ↦ absurd (
                let j_idx : j ≡ idx = (==_iff j idx).0 same in
                let empty : is_vacant e ≡ true =
                  subst (λ x. is_vacant x ≡ true) here
                    (subst (λ i. is_vacant (get_or stored i vacant) ≡ true) j_idx j_v) in
                cc)
            | inr ne ↦ ne
          ] in
          let none : (has : Element → Bool) → weight has (get_or stored j vacant) ≡ 0 =
            λ has. weight-vacant has (get_or stored j vacant) j_v in
          (
            (idx, record t { buckets = set stored j moved; elements_count = t.elements_count + 1 }),
            rw (v, run) refl,
            (
              record {
                sized = inr (length-set stored j moved ∙ size' ∙ size);
                counted = omega (
                  arith,
                  tally-set any t.buckets idx e lt,
                  tally-set any stored j moved j_lt,
                  none any,
                );
              },
              rw (length-set stored j moved, size') lt,
              get_or-set stored j idx moved vacant j_lt ∙ rw (apart) here,
              λ has. omega (
                arith,
                tally-set has t.buckets idx e lt,
                tally-set has stored j moved j_lt,
                none has,
              ),
            ),
          )
    ]

-- `Insert` with a key that is not null ends, keeps the table valid, returns the index where the
-- new element stands, and adds nothing but it, when the settings are lawful and the table valid.
pub insert-Inserted :
    (s : Settings) (t : AddressesHashTable) (key pointed container : ℕ)
    → Lawful s
    → IsValid t
    → 0 < key
    → Returns (insert s t key pointed container) (
        Inserted t (record {
          sptr_object_addr = key;
          pointed_mem_block = pointed;
          container_mem_block = container;
        }))
unfolding insert HasRoom
insert-Inserted s t key pointed container lawful v pos =
    let e : Element = record {
      sptr_object_addr = key;
      pointed_mem_block = pointed;
      container_mem_block = container;
    } in
    let full : is_vacant e ≡ false = ground arith in
    elim (Bool-cases (s.exceeds t.elements_count (length t.buckets) || length t.buckets == 0)) [
      | inl grow ↦
          let (t', run, (room, counts)) = expand_table-HasRoom s t v in
          let (r, run', (v', lt, at, counts')) =
            store-Inserted (xor_fold (hash key) t'.out_hash_size_in_bits) e t' room
              (rw (room.0) (xor_fold-lt _ _)) full in
          (r, rw (grow, run) run', (v', lt, at, λ has. omega (arith, counts has, counts' has)))
      | inr stay ↦
          let few : s.exceeds t.elements_count (length t.buckets) ≡ false = ground arith in
          let some_buckets : 0 < length t.buckets = ground arith in
          let size : length t.buckets ≡ 2 ^ t.out_hash_size_in_bits = elim v.sized [
            | inl z ↦ absurd (omega (arith, z))
            | inr z ↦ z
          ] in
          let less = lawful.full_exceeds t.elements_count (length t.buckets) few some_buckets in
          let (r, run', post) =
            store-Inserted (xor_fold (hash key) t.out_hash_size_in_bits) e t
              (size, v.counted, omega (arith, less, v.counted)) (rw (size) (xor_fold-lt _ _))
              full in
          (r, rw (stay) run', post)
    ]
