-- ===== src/Lib.antt =====
-- sylar, a C++ server framework ported to Windows: its byte store, its byte order, its wire
-- protocol, its addresses, its scheduler of fibers, its descriptors and their events, its log
-- patterns, its timers, its asynchronous streams and its command line, as functions, with proofs
-- about them.
--
-- How the parts interact: a message of the Rock protocol (sylar/sylar/rock/rock_protocol.cpp over
-- sylar/sylar/protocol.cpp) writes itself to a ByteArray and reads itself from one; a ByteArray
-- (sylar/sylar/bytearray.cpp) keeps bytes in a linked list of blocks, and swaps the bytes of
-- numbers by sylar/sylar/endia.h where its byte order asks for it. The client's copies under
-- client/sylar are the same code without logging. An AsyncSocketStream
-- (sylar/sylar/stream/async_socket_stream.cpp) sends requests, lets the fiber of each wait in a
-- context, and wakes it on a response, on the timeout of a timer (sylar/sylar/timer.cpp), or when
-- the connection ends.
--
-- The files:
--
-- - Prelude and its children: numbers, lists, slices of lists, bit operations as arithmetic,
--   two's complement.
-- - Endia: byteswap, byteswapOnLittleEndian, byteswapOnBigEndian of endia.h. Endia/Laws: their
--   laws.
-- - ByteArray/State: the members of ByteArray (m_baseSize is base_size, m_position position,
--   m_capacity capacity, m_size size, m_endian endian, m_owner owner; the list that m_root heads
--   is passed ++ ahead, and m_cur heads ahead), the constructors, and how a call ends (it
--   returns, throws std::out_of_range, or faults).
-- - ByteArray/Store: write, read (both), setPosition, addCapacity, clear, toString, each loop a
--   recursion on the blocks.
-- - ByteArray/Values: the typed reads and writes, the zigzag and varint codes, the strings.
-- - ByteArray/Invariant, Loops, Capacity, View, Writes, Reads, Start: the invariant IsValid, and
--   each operation against a Tape, a run of bytes with a position and no blocks.
-- - ByteArray/Codec, Values/Fixed, Values/Varint, Values/Zigzag, Values/Strings, RoundTrip,
--   Safety: what the typed methods append and read, and reads of arbitrary bytes.
-- - ByteArray/Buffers: getReadBuffers and getWriteBuffers, a WSABUF as a place in a block.
--   Buffers/Gathering, Scattering: what is sent from them and received into them.
-- - Rock/Message: the messages, serializeToByteArray, parseFromByteArray, toByteArray, and the
--   end of RockMessageDecoder::parseFrom. Rock/Emitting, Parsing, RoundTrip, Faults, Safety:
--   proofs. Rock/Frame: RockMsgHeader and RockMessageDecoder, parseFrom and serializeTo, on a
--   SocketStream; what a ZlibStream makes of an array is a parameter. Rock/Headers, Framing,
--   Sending: proofs.
-- - Timer/State, Manager: Timer and TimerManager of sylar/sylar/timer.cpp; the std::set is a list
--   in the order of its Comparator, and a timer is a record whose address the order depends on.
--   Timer/Order: the order and the set operations. Timer/Expiry: listExpiredCb and getNextTimer.
--   Timer/Changes: addTimer, cancel, refresh, reset.
-- - Async/State, Contexts: AsyncSocketStream of sylar/sylar/stream/async_socket_stream.cpp, its
--   contexts as objects of a heap, and RockStream::request and the response branch of
--   RockStream::doRecv of sylar/sylar/rock/rock_stream.cpp. Async/Answers, Closing, Release: who
--   is woken, how often, with what result. Async/Connecting: start, its retries, and the end of
--   doRead. Async/Permits: the permits of m_waitSem. Async/Pool: AsyncSocketStreamManager.
--   Async/Rotation: its get.
-- - Env/State: Env of sylar/sylar/env.cpp: the command line, the arguments, the help texts, the
--   paths. Env/Options, Lookup: proofs.
-- - Transfer/Loops: readFixSize and writeFixSize of sylar/sylar/stream.cpp on a buffer, over any
--   read and write. Transfer/Complete: their ends. Transfer/Arrays: their overloads on a
--   ByteArray, and read and write of SocketStream in sylar/sylar/stream/socket_stream.cpp, over
--   any recv and send. Transfer/Receiving, Filling, Draining: proofs.
-- - Transfer/Winsock: do_socket of sylar/sylar/hook.cpp, and recv and send of Socket in
--   sylar/sylar/socket.cpp, over any overlapped receive and send of Winsock, which end at once,
--   complete later, are cancelled by the timer or fail. Transfer/Sockets: proofs. Rock/Sockets:
--   the decoder over them.
-- - Address/Masks, Ipv4, Ipv6, Host: sylar/sylar/address.cpp: CreateMask and CountBytes,
--   IPv4Address, IPv6Address, the text that Address::Lookup splits, the comparisons on the bytes
--   of a sockaddr. Address/Swapping, Counting, Subnets, Compression, Hosts: proofs.
-- - Scheduler/State, Run: sylar/sylar/scheduler.cpp and sylar/sylar/fiber.cpp: the queue of
--   tasks, and run of each thread as steps that end where a lock is given back, a fiber is
--   entered or left, or a count changes, so that the events of the threads, of their fibers, and
--   of schedule and stop come in any order. Scheduler/Picking, Counts, Quiet, Resuming, Races:
--   proofs.
-- - Events/State: the FdContext of sylar/sylar/iomanager.h, and addEvent, delEvent, cancelEvent,
--   cancelAll and the completions of IOManager::idle in sylar/sylar/iomanager.cpp, over the
--   scheduler that the manager is; the address of an OVERLAPPED is a number. Events/Keeping,
--   Pending, Waking: proofs.
-- - Descriptors/State: FdCtx and FdManager of sylar/sylar/fd_manager.cpp; the contexts are
--   objects that are numbered as they are made, get is two steps, under the read lock and under
--   the write lock, and what the system answers on a handle is a parameter. Descriptors/Own:
--   proofs.
-- - Log/Pattern: LogFormatter::init of sylar/sylar/log.cpp. Log/Written, Ends: proofs.
-- - Runs: stores, messages, timers, streams and command lines at which the definitions run and
--   the theorems are applied.
--
-- Conventions. Bytes, sizes and unsigned numbers are natural numbers; a cast to w bits is a
-- remainder by 2 ^ w, a difference in size_t is sub_size, and the sums of sizes are not wrapped,
-- since they count bytes of memory that is there; the lengths of a WSABUF are cut to 32 bits, and
-- what readFixSize and writeFixSize return is cut to an int. Where C++ leaves a signed overflow
-- undefined, the zigzag codes and the masks are none. Signed arguments are integers in the range
-- of their type; floats are their bit patterns; a std::string is the list of its bytes. The loops
-- of readFixSize and writeFixSize, on a buffer or a ByteArray, recur on fuel, a round for each
-- byte and one more, which is enough since a round that goes on moves a byte; so does the loop
-- over a log pattern, whose rounds each use up a byte; no other loop has fuel of its own: the
-- loops over blocks recur on the blocks, the loop that fills tmp recurs on the bytes left in tmp,
-- which is a fault to overrun, and the loop that reads a varint recurs on its five or ten rounds.
-- What new char[n] holds is a function in the state, and BYTE_ORDER, which is the compiler's
-- value of a multi-character literal, another field. An assertion of the scheduler logs and, in a
-- debug build, ends the process; it has no part in the steps. That of addEvent is taken as in a
-- debug build: it is an end of its own, aborts. Blocks of size 0 are outside of the invariant.
-- Allocation succeeds always: std::bad_alloc and std::length_error are not modelled. The clock is
-- an argument of the calls that read it, and a call on the timers is one step, since it holds the
-- lock; so is a call on the contexts of a stream, whose doRsp runs on whoever has exchanged its
-- scheduler for null.
--
-- Not modelled: the file methods and getMd5 of ByteArray (file I/O, OpenSSL), toHexString, the
-- compression of the Rock decoder (zlib), what Winsock does, conditional timers, start of the
-- scheduler and switchTo, the completion port of IOManager and the wait of its idle, the hooks of
-- hook.cpp but do_socket, the rest of sockets, loggers and appenders, configuration and module
-- loading.
pub mod Prelude
pub mod Endia
pub mod ByteArray
pub mod Rock
pub mod Timer
pub mod Async
pub mod Env
pub mod Transfer
pub mod Address
pub mod Scheduler
pub mod Log
pub mod Events
pub mod Descriptors
pub mod Runs
