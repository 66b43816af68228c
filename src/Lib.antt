-- ===== src/Lib.antt =====
-- CodeKnife, a C++ library of utilities (util) and of objects with signals, slots and events
-- (cobject). This library models its core in layers that do not depend on one another except where
-- the code does: byte strings and checksums, the work-stealing deque, the skip list, the timer and the
-- memory pool, packets and their shared memory ring, and the object system's tables, connections,
-- event queue and dispatcher.
--
-- Prelude holds what the modules share: native numbers and their tests, lists, searching, and the
-- laws of bit operations.
--
-- Crc32c: include/util/crc32c.hpp and src/util/crc32c.cpp. The static tables are a record that
-- `initialize` fills and `compute` takes and returns; words are numbers below 2 ^ 32. Crc32c.Linear
-- and Crc32c.Tables have the algebra of the shifts and what the tables contain, Crc32c.Checksum
-- compares `compute` with the checksum taken bit by bit.
--
-- ByteBuffer: include/util/byte_buffer.hpp and src/util/byte_buffer.cpp. A buffer is an optional
-- shared sequence of bytes with an offset and a size, as in the class; a copy shares the bytes, and
-- since no operation writes to them, sharing is not visible. ByteBuffer.Views has slices
-- and copies, ByteBuffer.Order the comparisons.
--
-- WorkStealingDeque: include/util/work_stealing_deque.hpp, for one thread at a time. The ring of
-- slots with its 64-bit positions, `push_bottom`, `pop_bottom`, `steal_top` and `grow`.
-- WorkStealingDeque.Refines and WorkStealingDeque.Run relate it to a list,
-- WorkStealingDeque.Capacity is about the doubling of the capacity. The two doubling loops have fuel
-- for 64 doublings, after which a 64-bit word has no bit left; where the constructor's loop does not
-- end in them, the result is none.
--
-- Memory: bytes at addresses, for memcpy. IpcPacket: include/util/ipc_packet.hpp, every constructor
-- and method; multi-byte fields are little-endian, the result of an allocation and the clock are
-- arguments, and a header that the constructor leaves unset is the argument `unset`.
-- IpcPacket.Wire is about the bytes of a packet, IpcPacket.Validity about which packets the
-- constructors make and which bytes a receiver accepts.
--
-- IpcSharedMemory: include/util/ipc_shared_memory.hpp and src/util/ipc_shared_memory.cpp, the POSIX
-- branch. The two rings with their positions and the counts of their semaphores are a record;
-- `write_packet` and `read_packet` choose the direction by role and are otherwise
-- `write_direction` and `read_direction`. The system's limit of a semaphore is the parameter
-- `sem_max`. IpcSharedMemory.Ring compares the one-piece and two-piece copies with reads and writes
-- that go round the ring, IpcSharedMemory.Queue says when a ring holds a list of packets,
-- IpcSharedMemory.Send, IpcSharedMemory.Receive and IpcSharedMemory.Faults are about the calls.
--
-- MetaObject: include/cobject/meta_object.hpp, src/cobject/meta_object.cpp and
-- src/cobject/meta_registry.cpp. A MetaObject is its class with or without a parent;
-- MetaObject.Chain is about the lookups and the registry.
--
-- ConnectionManager: include/cobject/connection_manager.hpp, src/cobject/connection_manager.cpp and
-- `metacall` of src/cobject/cobject.cpp. The map from senders to lists is an association list; the
-- virtual `metaObject` and the thread of an object are parameters; an emission is the list of the
-- calls that it makes. ConnectionManager.Entries is about the association list,
-- ConnectionManager.Lookup about disconnecting and adding, ConnectionManager.Valid about connecting
-- and the states that the operations reach, ConnectionManager.Wired about the connections in them,
-- ConnectionManager.Emit about emissions.
--
-- EventQueue: include/cobject/capplication.hpp, src/cobject/capplication.cpp and
-- include/cobject/event.hpp. The handlers of events and the dispatcher's turn are parameters that
-- act on the whole state. EventQueue.Rounds is about one round of the posted events,
-- EventQueue.Removal about removed ones and EventQueue.MainLoop about `exec`, whose fuel bounds the
-- turns of its loop.
--
-- ObjectTree: `setParent`, `addChild` and `removeChild` of src/cobject/cobject.cpp, on a store from
-- addresses to an object's parent and children. ObjectTree.Linked says when parents and children
-- agree.
--
-- SkipList: include/util/skiplist.hpp, one thread at a time. Nodes stand at addresses and have a
-- pointer for each level; the address 0 is null, and as a predecessor the head. The order of the keys
-- is a parameter, which SkipList.Search asks to be irreflexive and transitive; the address and the
-- height of a new node are arguments. The loops along a level have fuel, for which more than the
-- number of nodes is enough; those that repeat a failed exchange have `tries`, of which an undisturbed
-- insertion needs one each. SkipList.Levels and SkipList.Chains have the lists and pointers of the
-- levels, SkipList.Search and SkipList.Find the descents, SkipList.Ordered the list that a skip list
-- stands for, SkipList.Pointers what a write changes, SkipList.Insert, SkipList.Inserted,
-- SkipList.Emplace and SkipList.Emplaced insertions, SkipList.Erased, SkipList.Erase and
-- SkipList.EraseKey erasures, SkipList.Heights the random heights.
--
-- Timer: include/util/timer.hpp. What a thread does between taking the mutex and giving it back is one
-- step, and a run is a list of such steps of the timer's thread and of others; where the thread gives
-- the mutex back is its phase. Timer.Queue says what is asked of the priority queue, Timer.Cancel is
-- about cancelled timers, Timer.Serve about due ones, Timer.Sleep about the wait for a time.
--
-- EventDispatcher: include/cobject/event_dispatcher.hpp, src/cobject/event_dispatcher_linux.cpp and the
-- timer calls of src/cobject/cobject.cpp. Its GLib sources are records that may be missing; times are
-- milliseconds that the caller gives. EventDispatcher.Timeout is about the timeout for the main loop,
-- EventDispatcher.Ids and EventDispatcher.Timers about the timers as a map from ids,
-- EventDispatcher.Delivery about a turn.
--
-- MemoryPool: include/util/memory_pool_v2.hpp and src/util/memory_pool_v2.cpp, the size classes and the
-- blocks of small and medium size. A block is the address of its header, a free list the list of its
-- blocks; malloc's result is an argument. The statistics do not wrap around, the reference counts do.
-- MemoryPool.Classes is about the size classes, MemoryPool.Blocks says when each block has its place,
-- MemoryPool.Moves is about the moves of a block, MemoryPool.Small about giving one back,
-- MemoryPool.Refill about new slabs, MemoryPool.Attempts and MemoryPool.Allocate about taking one,
-- MemoryPool.Medium about the cache of medium blocks.
--
-- Each component's Tests module runs it on concrete data and applies its theorems.
--
-- Not modelled: other threads and processes between the steps of a call (mutexes are left out, and
-- a call runs alone, but for the timer), the Windows branches and the Windows dispatcher, GLib's own
-- loop, the creation and removal of system objects, logging and file output, the thread pool, the
-- first memory pool, the large blocks and the end of a thread in the second, the object pool,
-- composite keys, the intrusive list, the spin mutex, the destruction of objects and their properties,
-- and the macros and templates that fill the tables of a class.
pub mod Prelude
pub mod Crc32c
pub mod ByteBuffer
pub mod WorkStealingDeque
pub mod Memory
pub mod IpcPacket
pub mod IpcSharedMemory
pub mod MetaObject
pub mod ConnectionManager
pub mod EventQueue
pub mod ObjectTree
pub mod SkipList
pub mod Timer
pub mod EventDispatcher
pub mod MemoryPool
