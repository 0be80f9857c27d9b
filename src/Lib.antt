-- ===== src/Lib.antt =====
-- gaia-net: messages between two parties, over shared memory in one machine or over gRPC and redis
-- between machines.
--
-- The parts and their files:
--   IChannel.antt         src/ichannel.h: the parties and the traffic counters of every channel.
--   Keys.antt             the names of shared-memory objects (`get_shm_key`, src/memchannel.cpp) and
--                         of redis lists and routes (src/grpc_client.cpp).
--   Mem.antt, Mem/        src/memchannel.cpp. Mem/View.antt is `SharedMemoryView`, a ring of bytes
--                         with two 32-bit counters that wrap; Mem/Queue.antt is the bounded queue that
--                         it implements; Mem/Channel.antt is `MemChannel::send` and `recv`, a length
--                         header and chunks, as programs over the blocking calls of the ring;
--                         Mem/Transfer.antt runs a sender against a receiver, in any interleaving;
--                         Mem/Setup.antt is the constructor, `attach` and the destructor, on a store
--                         of named objects, and Mem/Setup/Conversation.antt puts the two together;
--                         Mem/Setup/Stages.antt is the same set-up in the steps between which the
--                         other process can run, and Mem/Setup/Resources.antt what it maps and opens;
--                         Mem/KeyLock.antt and Mem/FileLock.antt are the locks by name, as steps of
--                         threads in one process and in several.
--   Redis.antt, Redis/    src/redis_client.cpp: which connection the environment selects, and which
--                         object each call goes to.
--   Rpc.antt, Rpc/        src/grpc_client.cpp. Rpc/Recv.antt is `RpcClient::Recv` over redis;
--                         Rpc/Client.antt is version negotiation, `Send`, the acknowledging
--                         thread, `get_continue_status` and `set_continue_status`; Rpc/Flush.antt is
--                         `wait_flush`; Rpc/Metadata.antt is what each stream and version call
--                         carries; Rpc/Finish.antt is the redis part of the constructor, `finish`
--                         with its record of the traffic, over the calls of Redis.antt, and the
--                         destructor; Rpc/Pull.antt is `Recv` without redis; Rpc/Pipe.antt puts a sending client, its stream and the far
--                         end together, with sends, receptions and any number of reconnections.
--   Channel.antt, Channel/
--                         src/channel.cpp: the retry loops of `real_send`, `real_recv` and `flush`,
--                         which drive the client of Rpc/ and count in the state of IChannel.antt, and
--                         the LZ4 frames; Channel/Copies.antt is `send`, `recv` and their
--                         compressing kin; Channel/Polls.antt is `real_recv` without redis;
--                         Channel/Peer.antt runs the attempts of `real_send` and `real_recv` over the
--                         stream and the far end of Rpc/Pipe.antt; Channel/Life.antt is the making and deleting of clients
--                         by the constructor, the reconnections and the destructor, as pointers.
--   Thread.antt, Thread/  `CEvent` and `CThread` of src/gaiathread.cpp, `SafeQueue` of src/SafeQueue.h and
--                         `ThreadPool` of src/ThreadPool.h, as steps of threads in any order.
--   Base.antt, Base/      what the parts share: Boolean tests, lists, tables, 32-bit words and masks,
--                         bytes of a word, signed numbers, decimal digits.
--
-- How the code is read. Bytes and characters are natural numbers, memory and text are lists of
-- them. Words wrap as the code's types do (`% 2 ^ 32` for uint32_t, `% 2 ^ 64` for std::size_t); an
-- `int` index of the redis items is a signed number read from four little-endian bytes, while the
-- packet number `m_seq` is kept as a natural number and does not wrap. A blocking call of the ring
-- is one atomic attempt that answers `none` where the code waits, under the mutex or spinning: the two
-- counters are written by one side each. What gRPC, redis and the operating system answer is an
-- argument: lists of events for `Recv`, of version replies for the negotiation, a record for each
-- attempt of the retry loop. The peer of Rpc/Pipe.antt is not in this repository; it is taken to
-- keep the order of one stream and to acknowledge each packet by its number.
-- The reading thread begins in a step of its own after the stream is opened. A client that is
-- given up before that is deleted with a thread that was not joined, which ends the program; and where
-- the thread waits with an acknowledgement that finds no packet, the join hangs.
--
-- Bounds and fuel. Loops of the code run over lists of events or over a count computed first
-- (`chunk_cnt`, 120 attempts), so that no fuel is needed, with two exceptions: `digits` in
-- Base/Decimal.antt has as much fuel as the number it prints, and the result is shown to be the same
-- with more; `wait_flush` has rounds, of which eleven are shown to be enough for its ten seconds. A
-- ring has a power of two of bytes, at least 8, as the constructor of `MemChannel` asserts; messages
-- of the shared-memory channel are shorter than 2 GiB where they are said to arrive, since the
-- position in the buffer is an `int`.
--
-- Parameters. LZ4 is a parameter of Channel/Frame.antt, with the promise that it inverts its own
-- compression; `atoi` and the JSON parser are parameters of Redis.antt, and `tolower` of
-- Rpc/Metadata.antt, without a promise; whether a server is reached is a function in
-- Channel/Life.antt. The record lock of a file is an interface of Mem/FileLock.antt with the laws
-- that POSIX gives it. Thread/Runner.antt takes of `std::thread` when the C++ standard lets it end
-- the program.
--
-- Not modelled: the unlinking of lock files and errors of opening them, the objects of
-- redis-plus-plus and errors of making them, the wait for the shutdown of a gRPC channel, `CLock`,
-- random numbers and the naming of threads, tracing, logging, generated code and vendored code.
pub mod Base
pub mod IChannel
pub mod Keys
pub mod Mem
pub mod Redis
pub mod Rpc
pub mod Channel
pub mod Thread
