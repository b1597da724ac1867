-- ===== src/Gc/AddressesHashTable.antt =====
-- 3FD/gc_addresseshashtable.h, 3FD/gc_addresseshashtable.cpp: the open-addressing table of the
-- smart pointers. A reference to an element is its index. The hash has 32 bits, and table sizes
-- stay below 2 ^ 31, so that `1 << m_outHashSizeInBits` does not overflow.
pub mod Tally
pub mod Probing
pub mod Rehash
pub mod Contract
pub mod Removal
pub mod Finding
mod Examples
use Prim.Native.Nat.{bit_xor}
use fd.Base.{
  ℕ, zero, suc, ◌+◌, ◌-◌, ◌*◌, ◌/◌, ◌%◌, ◌^◌, Bool, true, false, ◌&&◌, ◌||◌, not, List, [], ◌∷◌,
  Run, ok, stop, no_return, out_of_bounds, ◌>>=◌, ◌>>◌, assert, ltb, leb, ◌==◌, if◌then◌else◌,
  length, get_or, set, replicate,
}

-- The key, and the vertices pointed to and containing it, by their addresses; null is 0.
pub record Element : Type 0 where
  pub sptr_object_addr : ℕ
  pub pointed_mem_block : ℕ
  pub container_mem_block : ℕ

abbrev pub vacant : Element
vacant = record { sptr_object_addr = 0; pointed_mem_block = 0; container_mem_block = 0 }

unfoldable pub is_root : Element → Bool
is_root e = e.container_mem_block == 0

unfoldable pub set_pointed_mem_block : Element → ℕ → Element
set_pointed_mem_block e v = record e { pointed_mem_block = v }

abbrev pub Buckets : Type 0
Buckets = List Element

pub record AddressesHashTable : Type 0 where
  pub buckets : Buckets
  pub elements_count : ℕ
  pub out_hash_size_in_bits : ℕ

-- The configuration: `initial_size_log2`, and the comparisons of the load factor, a float, with
-- the threshold and with a third of it, by the count of elements and the size of the table.
pub record Settings : Type 0 where
  pub initial_size_log2 : ℕ
  pub exceeds : ℕ → ℕ → Bool
  pub falls_below : ℕ → ℕ → Bool

unfoldable pub new_table : AddressesHashTable
new_table = record { buckets = []; elements_count = 0; out_hash_size_in_bits = 0 }

-- The loop of `Hash` over the octets of the key, the most significant first.
hash_octets : ℕ → ℕ → ℕ → ℕ
hash_octets zero key h = h
hash_octets (suc n) key h =
    hash_octets n key (bit_xor h (key / 2 ^ (n * 8) % 2 ^ 8) % 2 ^ 32 * 16777619 % 2 ^ 32)

unfoldable pub hash : ℕ → ℕ
unfolding hash_octets
hash key = hash_octets 8 key 2166136261

unfoldable pub xor_fold : ℕ → ℕ → ℕ
xor_fold h bits = bit_xor (h / 2 ^ bits) h % 2 ^ bits

-- `++idx < size`, or back to 0
abbrev pub next_index : ℕ → ℕ → ℕ
next_index n idx = if ltb (idx + 1) n then idx + 1 else 0

-- The loop `do … while` of a linear probe: from the index behind `idx` to the first element with
-- the property. A full round without one shows that the loop does not end.
pub probe : (Element → Bool) → ℕ → Buckets → ℕ → Run ℕ
probe stops zero bs idx = stop no_return
probe stops (suc n) bs idx = elim (stops (get_or bs (next_index (length bs) idx) vacant)) [
  | true ↦ ok (next_index (length bs) idx)
  | false ↦ probe stops n bs (next_index (length bs) idx)
]

abbrev pub is_vacant : Element → Bool
is_vacant e = e.sptr_object_addr == 0

-- The first vacant index at or behind the hashed one.
vacancy : Buckets → ℕ → Run ℕ
unfolding probe
vacancy bs idx =
    if is_vacant (get_or bs idx vacant) then ok idx else probe is_vacant (length bs) bs idx

-- The body of the loops that rehash, in `ExpandTable` and in `ShrinkTable`.
place : ℕ → Element → Buckets → Run Buckets
unfolding vacancy
place bits e bs = do idx ← vacancy bs (xor_fold (hash e.sptr_object_addr) bits); ok (set bs idx e)

pub rehash : ℕ → Buckets → Buckets → Run Buckets
unfolding place
rehash bits [] bs = ok bs
rehash bits (e ∷ es) bs = elim (is_vacant e) [
  | true ↦ rehash bits es bs
  | false ↦ do bs' ← place bits e bs; rehash bits es bs'
]

-- An element that is stored at its hashed index, and moves the one that is there to the first
-- vacant place behind it.
store : ℕ → Element → AddressesHashTable → Run (ℕ × AddressesHashTable)
store idx e t =
    if is_vacant (get_or t.buckets idx vacant)
    then ok (idx, record t { buckets = set t.buckets idx e; elements_count = t.elements_count + 1 })
    else (do
      let stored : Buckets = set t.buckets idx e
      free ← probe is_vacant (length stored) stored idx
      ok (
        idx,
        record t {
          buckets = set stored free (get_or t.buckets idx vacant);
          elements_count = t.elements_count + 1;
        },
      ))

module _ (s : Settings) where
  unfoldable pub expand_table : AddressesHashTable → Run AddressesHashTable
  expand_table t =
      if length t.buckets == 0
      then ok (record t {
        buckets = replicate (2 ^ s.initial_size_log2) vacant;
        out_hash_size_in_bits = s.initial_size_log2;
      })
      else (do
        let bits : ℕ = t.out_hash_size_in_bits + 1
        bs ← rehash bits t.buckets (replicate (2 ^ bits) vacant)
        ok (record t { buckets = bs; out_hash_size_in_bits = bits }))

  -- Only called with more bits than at the start, so that the count of bits does not wrap.
  unfoldable pub shrink_table : AddressesHashTable → Run AddressesHashTable
  shrink_table t = do
    let bits : ℕ = t.out_hash_size_in_bits - 1
    assert (leb t.elements_count (2 ^ bits))
    bs ← rehash bits t.buckets (replicate (2 ^ bits) vacant)
    ok (record t { buckets = bs; out_hash_size_in_bits = bits })

  unfoldable pub insert : AddressesHashTable → ℕ → ℕ → ℕ → Run (ℕ × AddressesHashTable)
  unfolding store
  insert t sptr_object_addr pointed container = do
    t' ←
        if s.exceeds t.elements_count (length t.buckets) || length t.buckets == 0
        then expand_table t
        else ok t
    store (xor_fold (hash sptr_object_addr) t'.out_hash_size_in_bits)
        (record {
          sptr_object_addr = sptr_object_addr;
          pointed_mem_block = pointed;
          container_mem_block = container;
        })
        t'

  -- `Remove(Element &)`
  unfoldable pub remove_element : AddressesHashTable → ℕ → Run AddressesHashTable
  remove_element t idx = do
    assert (ltb 0 t.elements_count && ltb idx (length t.buckets))
    let t' : AddressesHashTable = record t {
      buckets = set t.buckets idx vacant;
      elements_count = t.elements_count - 1;
    }
    if ltb s.initial_size_log2 t'.out_hash_size_in_bits
          && s.falls_below t'.elements_count (length t'.buckets)
        then shrink_table t'
        else ok t'

-- A table without buckets has no first element to compare.
unfoldable pub lookup : AddressesHashTable → ℕ → Run ℕ
lookup t sptr_object_addr =
    let idx = xor_fold (hash sptr_object_addr) t.out_hash_size_in_bits in
    if length t.buckets == 0
    then stop out_of_bounds
    else if (get_or t.buckets idx vacant).sptr_object_addr == sptr_object_addr
    then ok idx
    else probe (λ e. e.sptr_object_addr == sptr_object_addr) (length t.buckets) t.buckets idx

-- `Remove(void *)`
unfoldable pub remove : Settings → AddressesHashTable → ℕ → Run AddressesHashTable
remove s t sptr_object_addr = do idx ← lookup t sptr_object_addr; remove_element s t idx
