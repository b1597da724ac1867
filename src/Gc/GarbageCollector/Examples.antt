-- ===== src/Gc/GarbageCollector/Examples.antt =====
-- A pointer that comes and goes (3FD/gc_garbagecollector.cpp).
use fd.Base.{true, [], ◌∷◌, ◌*◌, ltb, none}
use fd.Gc.AddressesHashTable.{vacant}
use fd.Gc.MemoryDigraph.{Environment}
use fd.Gc.GarbageCollector.{GarbageCollector}

abbrev env : Environment
env = record {
  around = record {
    ordered = record {
      find = λ key k xs. none;
      lower_bound = λ key k xs. 0;
      insert = λ key p xs. (true, p ∷ xs);
      erase = λ i xs. xs;
    };
    chunk = λ d. none;
    grown = 8;
  };
  settings = record {
    initial_size_log2 = 2;
    exceeds = λ c n. ltb (3 * n) (4 * c);
    falls_below = λ c n. ltb (4 * c) n;
  };
  alloc = λ n. true;
  fuel = 3;
}

-- One pointer is known.
abbrev collector : GarbageCollector
collector = record {
  memory_digraph = record {
    sptr_objects = record {
      buckets =
          vacant
          ∷ record { sptr_object_addr = 16; pointed_mem_block = 0; container_mem_block = 0 }
          ∷ vacant
          ∷ vacant
          ∷ [];
      elements_count = 1;
      out_hash_size_in_bits = 2;
    };
    store = record {
      heap = λ p. none;
      pool = record { initial_size = 4; block_size = 40; pools = []; available_pools = [] };
      vertices = [];
    };
    released = [];
  };
  messages_queue = [];
}
