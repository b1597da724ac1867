-- ===== src/Lib.antt =====
-- The garbage collector of 3FD, its queues and memory pools, the binary searches, and the parser of
-- the command line. Paths are from the repository's root.
--
-- The program. Smart pointers (`sptr`) tell the collector what they do by messages
-- (3FD/gc_messages.cpp), which one thread takes from a queue and executes on a graph
-- (3FD/gc_memorydigraph.cpp). The vertices of the graph are the managed memory blocks, its edges the
-- pointers between them; a pointer outside of all blocks is a root edge. The graph keeps the
-- pointers in a hash table (3FD/gc_addresseshashtable.cpp), the vertices of the blocks that are not
-- released in an ordered set (3FD/gc_vertexstore.cpp), and the vertices' memory in a growing pool
-- (3FD/utils_dynmempool.cpp) of pools (3FD/utils_memorypool.cpp). A vertex (3FD/gc_vertex.cpp)
-- holds its block's address with two flags (3FD/gc_memaddress.h) and the array of its incoming
-- edges (3FD/gc_arrayofedges.cpp). When an edge goes, a search along the incoming edges decides
-- whether the block is released.
--
-- The command line stands by itself. An application declares the arguments that it expects
-- (`AddExpectedArgument`), lets `Parse` read the arguments that it was called with, and gets their
-- values one by one. A declaration is checked and registered under its id and its labels; `Parse`
-- collects the values and stores them in the object only if it accepts all of them.
--
-- The files, each with its theorems in child modules and its runs in a module Examples:
--   Base: what the others share; numbers, lists, runs that can stop.
--   Gc/MemAddress: `MemAddress` (3FD/gc_memaddress.h).
--   Gc/ArrayOfEdges: `ArrayOfEdges`: `AddEdge`, `RemoveEdge`, `Clear`, `ForEachRegular`, `Search`.
--   Gc/Vertex: `Vertex` (3FD/gc_vertex.h, 3FD/gc_vertex.cpp), and the memory of the vertices.
--   Gc/Reachability: `IsReachable` (3FD/gc_memorydigraph.cpp).
--   Gc/AddressesHashTable: `Insert`, `Lookup`, `Remove`, and the two changes of size.
--   Gc/VertexStore: `GetVertex`, `GetContainerVertex`, `AddVertex`, `RemoveVertex`, `ShrinkPool`.
--   Gc/MemoryDigraph: the methods of `MemoryDigraph`; `UnmakeReference` is `unmake_reference`, made
--     of `remove_reference` and `collect`.
--   Gc/Messages: `Execute` of the messages, and the inner loop of `GCThreadProc`.
--   Gc/GarbageCollector: the calls that send messages (3FD/gc_garbagecollector.cpp), and
--     `GCThreadProc`, with the messages that come in before each round as an argument.
--   Utils/MemoryPool, Utils/DynamicMemPool: the pools.
--   Utils/Algorithms: the binary searches of 3FD/utils_algorithms.h, which stand by themselves.
--   Utils/LockFreeQueue: `LockFreeQueue` (3FD/utils_lockfreequeue.h), from which the collector's
--     thread takes the messages: the steps of `Add` and `Remove` as steps of a system of threads; Order and
--     Calls: what comes out of any interleaving. `LockedQueue` of the same file is its reference.
--   Utils/SListQueue: `Win32ApiWrappers::LockFreeQueue` of the same file.
--   Cmdline/Types: the types of 3FD/cmdline.h, and the constructor of `CommandLineArguments`.
--   Cmdline/Declaration: `AddExpectedArgument` and the checks under it; Kept: all its overloads.
--   Cmdline/Paragraph: `FormatParagraph`, which breaks a text of the printed usage into lines.
--   Cmdline/Usage: `PrintArgsInfo` and `PrintArgValuesConfig`; Widths, Printed,
--     Sorted, Ink and Whole: what it prints.
--   Cmdline/Values: `ParseAndValidateValue` and the functions under it.
--   Cmdline/Parsing: `Parse`; Steps and Sound: what it accepts; Ends: how it ends; Pieces: an account
--     of what the arguments say; Origins and Given: that `Parse` reads just this.
--   Cmdline/Retrieval: the getters; Present: the getters after `Parse`.
--   Cmdline/Sample: a library and a command line for the tests.
--
-- The queue of messages is modelled twice: Gc/Messages takes it as the list of messages that arrive,
-- and Utils/LockFreeQueue shows that its nodes give such a list. The steps of its threads are atomic
-- and follow one another; an address that `new` returns is one that was not used before.
--
-- How the code is read. Pointers are numbers, and null is 0. An operation is a function from the
-- state to a `Run`: `ok` with the new state, or `stop` with the reason: a failed `_ASSERTE`, an
-- access out of bounds or after deletion, a product that overflows an `int`, a thrown exception, or
-- a loop that does not end. Assertions are checked, as in a debug build. Words wrap around where the code's do, by `% 2 ^ 32`
-- and the like. A `Vertex *` is a key of the heap, which maps it to the vertex or to nothing; an
-- `Element &` of the hash table is the index of the element. The calls of the callbacks that free
-- memory are logged in the graph. A C string is the list of its bytes, and a `std::map` is a list of
-- pairs. A method of the command line that throws gives the object as it leaves it, besides the
-- exception. The union of parsed values has a case for each member, and a read of another member
-- stops, as does a cast of `typedExtInfo` to another type.
--
-- Parameters. Whether an allocation succeeds (`calloc` in `FormatParagraph` too), and where, is a
-- function that is given. So are the comparisons of the load factor, a float, with its threshold
-- (`Settings`), and the operations of the ordered set, `stx::btree_set`, of which a theorem assumes
-- what their documentation says. The command line takes the functions of the C library, the type `double` with its comparisons, and
-- the matching of boost::regex as a record `Library`, and the writing of numbers to a stream as a record
-- `Stream`. No theorem assumes anything of these two, but that blanks and line breaks are white space.
--
-- Bounds and fuel. `is_reachable` recurses on fuel, one unit for each call that is open: every call
-- marks a vertex that was unmarked, so as much fuel as there are unmarked vertices is enough. A
-- linear probe has as many steps as the table has buckets: after a full round it would repeat
-- itself, so that it then never ends. The loops of the searches recurse on fuel, the length of the
-- range, which every step makes shorter. `Parse` has as much fuel as there are arguments, and
-- `FormatParagraph` as there are characters: every round takes one at least. The loop of `Remove` has
-- two rounds at most when no `Add` is half done. The index of `Parse` has
-- 16 bits, and the arguments are taken to be fewer than 2 ^ 16.
--
-- Not modelled: the singleton of the collector, the start and stop of its thread and the error it
-- keeps; the weaker orders of memory of the atomic operations; the framework around, which is bound
-- to other systems (RPC, web services, ISAM, SQLite, OpenCL, WinRT); the messages of
-- errors; the logger, the configuration; the copy of the STX B+ tree.
pub mod Base
pub mod Gc
pub mod Utils
pub mod Cmdline
