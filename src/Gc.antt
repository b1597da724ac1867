-- ===== src/Gc.antt =====
-- The garbage collector: 3FD/gc_*.
pub mod MemAddress
pub mod ArrayOfEdges
pub mod AddressesHashTable
pub mod Vertex
pub mod Reachability
pub mod VertexStore
pub mod MemoryDigraph
pub mod Messages
pub mod GarbageCollector
