-- ===== src/Gc/GarbageCollector/Lifetime.antt =====
-- A pointer that comes and goes (3FD/gc_garbagecollector.cpp, 3FD/gc_memorydigraph.cpp).
use fd.Base.{ℕ, ◌+◌, ◌≡◌, ◌<◌, Bool, ok, length, get_or}
use fd.Gc.AddressesHashTable.{Element, AddressesHashTable, vacant}
use fd.Gc.AddressesHashTable.Tally.{weight, tally}
use fd.Gc.AddressesHashTable.Contract.{IsValid, Lawful}
use fd.Gc.AddressesHashTable.Finding.{has_key}
use fd.Gc.VertexStore.{get_container_vertex}
use fd.Gc.MemoryDigraph.{MemoryDigraph, Environment}
use fd.Gc.GarbageCollector.{GarbageCollector}

-- The graph, but for its table, is the same; the table is valid, and has the same elements.
abbrev pub SameGraph : MemoryDigraph → MemoryDigraph → Type 0
SameGraph g g' =
    (g'.store ≡ g.store)
    × (g'.released ≡ g.released)
    × IsValid g'.sptr_objects
    × ((has : Element → Bool)
        → tally has g'.sptr_objects.buckets ≡ tally has g.sptr_objects.buckets)

-- The pointer `key` is not known to the graph, and the block that holds it can be looked up.
module _ (env : Environment) (g : MemoryDigraph) (key container : ℕ) (lawful : Lawful env.settings)
    (valid : IsValid g.sptr_objects) (pos : 0 < key)
    (unknown_key : tally (has_key key) g.sptr_objects.buckets ≡ 0)
    (found : get_container_vertex env.around g.store key ≡ ok container) where
  abbrev entry : Element
  entry = record { sptr_object_addr = key; pointed_mem_block = 0; container_mem_block = container }

  -- The graph with the pointer in its table.
  abbrev Knows : MemoryDigraph → Type 0
  Knows g' =
      (t : AddressesHashTable) × (idx : ℕ) × (g' ≡ record g { sptr_objects = t })
      × IsValid t
      × (idx < length t.buckets)
      × (get_or t.buckets idx vacant ≡ entry)
      × ((has : Element → Bool)
          → tally has t.buckets ≡ tally has g.sptr_objects.buckets + weight has entry)
