-- ===== src/Utils.antt =====
-- The utilities: 3FD/utils_*.
pub mod MemoryPool
pub mod DynamicMemPool
pub mod Algorithms
pub mod LockFreeQueue
pub mod SListQueue
