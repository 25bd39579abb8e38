-- ===== src/Lib.antt =====
-- The verification library of seaice, a C++ network framework.
--
-- The parts and how they interact. A ByteArray (seaice/bytearray.cpp) is a chain of byte nodes with a
-- position; its encodings put integers, floats and strings into it. The messages of
-- seaice/protocol.cpp and seaice/rock/rock_protocol.cpp are written to and read from a ByteArray, and
-- the rock decoder puts a header in front of them, whose bytes go through the loops of
-- seaice/stream.cpp. seaice/util/hash_util.cpp has the text functions that the HTTP and WebSocket parts
-- call. A scheduler runs tasks, fibers or callbacks, on its threads; a FiberSemaphore suspends fibers and
-- has the scheduler run them again, and a WorkerGroup bounds with it how many callbacks a scheduler has.
-- A WebSocket session sends and receives its frames through the loops of seaice/stream.cpp. An IOManager
-- keeps the fibers and callbacks that wait for a descriptor, and schedules them when it is ready.
--
-- Which file models what:
--   Prelude       shared names, lists over the native numbers, bit operations, byte layouts
--   Endian        seaice/endian.h and the byte order of a ByteArray
--   ByteArray     the class of seaice/bytearray.cpp: the constructor is new, addCapacity add_capacity,
--                 the methods write, read, setPos, setSize, clear and toString have the same names in
--                 lower case; the const read is read_at. The chain from m_root is the field nodes,
--                 m_cur is an index into it, and its length stands for the null pointer. Children:
--                 Chain (the loops), State (well-formed states), Capacity, Write, Append, Read,
--                 Position, Streams, Buffers (getReadBuffers and getWriteBuffers)
--   Codec         the write and read methods of the encodings, by their names: write_fuint16 is
--                 writeFuint16, and so on. Children: Fixed, Zigzag, Varint, Signed, Strings, Floats,
--                 RoundTrip
--   Protocol      Request, Response and Notify of seaice/protocol.cpp
--   Rock          the messages, the header check and the decoder of seaice/rock/rock_protocol.cpp.
--                 Children: Layout, RoundTrip, Header,
--                 Streams (parseFrom and serializeTo over a stream), Carried, Posted
--   Stream        readFixSize and writeFixSize over memory, from seaice/stream.cpp; a stream's own read
--                 and write are parameters. Children: Complete, Exchange (the calls with the
--                 test of their result, as WsSession makes them), Buffered (the loops that move a
--                 ByteArray)
--   HashUtil      hexadecimal and base64 text; Split has replace and split, Murmur the hash functions
--   FdManager     the table of descriptors of seaice/fd_manager.cpp. Child: Table
--   Timer         the timers of seaice/timer.cpp; the set is the list of its elements in order, and a
--                 timer's address is a field. Children: Order, Insertion, Renewal, Expiry
--   Cache         seaice/ds: CacheStatus the counters; LruCache the class of lru_cache.h, whose list
--                 m_keys is the field keys, and whose map m_cache leads to places, the iterators.
--                 Children: Index, Prune, Promise (what a cache promises), Moves, Methods, Refines, Runs,
--                 Bounds
--   Scheduler     seaice/scheduler.cpp and seaice/fiber.cpp: Fibers has the states of a thread's fibers,
--                 main_round is a round of mainFun. Children: Queue (which task is taken), Rounds,
--                 Invariant, Tasks, Turns (how a round ends), Progress
--   FiberSemaphore  the class of seaice/mutex.cpp; what it calls a waiter is a parameter
--   WorkerGroup   the class of seaice/worker.cpp over FiberSemaphore. Children: Steps (the step
--                 relation), Opening, Limits
--   WsSession     the frames of seaice/http/ws_session.cpp over a stream: send_message is WSSendMessage
--                 and recv_message WSRecvMessage. Children: Frames, Sending, Receiving, Messages
--   IoManager     seaice/iomanager.cpp: the table of descriptors mFdCtxs, addEvent, delEvent, cancelEvent,
--                 cancelAllEvent, triggerEvent, and a turn and a round of idleFun; epoll_ctl is a
--                 parameter, whose calls may fail. Children: Waiting (what a call promises),
--                 Contexts, Interest (what epoll_ctl promises), Triggers, Room, Cancelled, Calls, Cancels, Performs, Runs
--   Tests         runs on concrete inputs
--
-- Conventions. A number of w bits is its bit pattern, a natural number below 2 ^ w, with the wrap-around
-- written out, also where a result or a local variable is an int; a string is the list of its bytes;
-- sizes are taken to fit size_t. A method is a function from a ByteArray to a ByteArray and a result: a value, std::out_of_range, or crash for what has no
-- defined result in C++, such as following a null pointer. Mutexes do not appear, since each method is
-- modelled as one step. The machine is little-endian.
--
-- Fuel. read_fix_size and write_fix_size take as many rounds as there are bytes, since every call that
-- goes on moves at least one. base64decode, replace and split take as many rounds as characters, since
-- every round goes past one. The variable-length loops have the rounds of the C++ loop.
-- recv_loop takes as many rounds as frames; a loop that waits for frames has no bound of its own.
--
-- Not modelled: sockets, the system calls of epoll, threads, context switches, files, logging and
-- configuration, which are system calls and libraries; the parsers that Ragel generates; zlib and OpenSSL; the timed
-- caches and the HTTP classes.
pub mod Prelude
pub mod Endian
pub mod ByteArray
pub mod Cache
pub mod Codec
pub mod Protocol
pub mod Rock
pub mod Scheduler
pub mod Stream
pub mod FiberSemaphore
pub mod WorkerGroup
pub mod WsSession
pub mod HashUtil
pub mod FdManager
pub mod IoManager
pub mod Timer
pub mod Tests
