-- ===== src/Gc/AddressesHashTable/Examples.antt =====
-- Runs of the table of 3FD/gc_addresseshashtable.cpp.
use fd.Base.{
  Option, some, none, ℕ, ◌+◌, [], ◌∷◌, ◌*◌, ◌≡◌, refl, Bool, ltb, length, get_or, arith, ◌<◌, inr,
  Returns, ok, stop, no_return, Run,
}
use fd.Gc.AddressesHashTable.{
  Element, AddressesHashTable, Settings, expand_table, xor_fold, hash, vacant, new_table, insert,
  remove, lookup,
}
use fd.Gc.AddressesHashTable.Tally.{tally, weight}
use fd.Gc.AddressesHashTable.Contract.{IsValid, Lawful, Inserted, insert-Inserted}
use fd.Gc.AddressesHashTable.Finding.{lookup-finds, lookup-absent, remove-IsValid}

-- Two bits at the start, and a threshold of 3/4.
abbrev settings : Settings
settings = record {
  initial_size_log2 = 2;
  exceeds = λ c n. ltb (3 * n) (4 * c);
  falls_below = λ c n. ltb (4 * c) n;
}

abbrev settings-Lawful : Lawful settings
settings-Lawful = record {
  full_exceeds = λ c n e pos. ground arith;
  below_half = λ c n e. ground arith;
}

abbrev element : ℕ → ℕ → Element
element key pointed = record {
  sptr_object_addr = key;
  pointed_mem_block = pointed;
  container_mem_block = 0;
}

-- Four buckets, three of them in use.
abbrev table : AddressesHashTable
table = record {
  buckets = element 8 1 ∷ element 16 2 ∷ vacant ∷ element 24 3 ∷ [];
  elements_count = 3;
  out_hash_size_in_bits = 2;
}

abbrev table-IsValid : IsValid table
table-IsValid = record { sized = inr refl; counted = refl }

insert-Inserted_example : Returns (insert settings table 32 4 0) (Inserted table (element 32 4))
insert-Inserted_example =
    insert-Inserted settings table 32 4 0 settings-Lawful table-IsValid (omega arith)

lookup-finds_example :
    Returns
      (lookup table 24)
      λ idx. (idx < 4) × ((get_or table.buckets idx vacant).sptr_object_addr ≡ 24)
lookup-finds_example = lookup-finds table 24 table-IsValid (omega arith) (omega arith)

lookup-absent_example :
    (lookup table 40 ≡ stop no_return) × (remove settings table 40 ≡ stop no_return)
lookup-absent_example = lookup-absent settings table 40 (omega arith) (omega arith) refl

remove-IsValid_example : Returns (remove settings table 16) λ t'.
    IsValid t'
    × ((e : Element) × (e.sptr_object_addr ≡ 16)
        × ((has : Element → Bool) → tally has t'.buckets + weight has e ≡ tally has table.buckets))
remove-IsValid_example =
    remove-IsValid settings table 16 settings-Lawful table-IsValid (omega arith) (omega arith)

-- The first insertion into a new table.
abbrev sizes : Run (ℕ × AddressesHashTable) → Option (ℕ × ℕ)
sizes (ok (idx, t)) = some (length t.buckets, t.elements_count)
sizes (stop e) = none

first : sizes (insert settings new_table 8 1 0) ≡ some (4, 1)
unfolding insert new_table expand_table xor_fold hash
first = refl
