-- ===== src/Lib.antt =====
-- Tazer: a client library that serves remote files through a chain of block caches.
--
-- A program's file calls go to an InputFile (src/client/InputFile.cpp), which cuts a read into
-- blocks and asks the chain of caches for each. A bounded cache
-- (src/caches/bounded/NewBoundedCache.cpp) answers a block that it has, reserves an entry and
-- asks the next level for one that it lacks, or lets the caller wait for one that another request
-- has reserved; the last level asks a server by the messages of src/common/Message.cpp. Objects
-- are shared by key through Trackable (inc/tazer/Trackable.h), a prefetcher (src/prefetchers)
-- names blocks to fetch ahead, and ReaderWriterLock (src/common/ReaderWriterLock.cpp) guards the
-- tables of a process.
--
-- Base holds what the modules share: library names, Boolean tests, lists over native numbers, and
-- arrays as functions of the index with `update` and `memcpy`.
--
-- Bounded is NewBoundedCache with NewMemoryCache. Types holds the records of
-- inc/tazer/caches/bounded and inc/tazer/Request.h; Table the constructor, getBinIndex, blockSet,
-- the block bytes and the user counts of NewMemoryCache.cpp; Scan the searches getBlock and
-- oldestBlock; Ops readBlock, writeBlock and addFile. What runs under the writer lock of a bin is
-- one step (lookup_block, store_block, release_block); Whole and Again are about whole calls over
-- a next level that leaves some bytes alone; the next level is a record of operations on a state
-- of its own. Memory is a function from addresses to bytes, so `_blocks` and the data of a
-- request are addresses; `exit(0)` and SIGSEGV are outcomes. The loops over a bin are recursion
-- on the associativity. The time of a call is an argument. The waits of the deferred read are a
-- list of polls (await_block); its retry at the last level is not modelled. Statistics, traces
-- and logging, which no decision reads, are left out. XXH32 is an argument.
--
-- File is InputFile and the parts of LocalFile and TazerFile that it shares: Types the state,
-- open and seek; Read copyBlock and read, with all 32-bit and 64-bit truncations written out.
-- Read asks an interface (Requests) for blocks: a request is ready at once or is awaited later,
-- in the order in which an unordered_map is walked, which is an argument too. Its loops are
-- recursion on the number of blocks and on the lists of pending reads. Serve says what the chain
-- promises: the bytes of the file. Local is LocalFile::read, which awaits each block in turn. The
-- mutexes of open and close are left out, as is close.
--
-- Message is src/common/Message.cpp with inc/tazer/Message.h and the packet of
-- ServeFile::sendData (src/server/ServeFile.cpp): Bytes a buffer and its little-endian numbers,
-- Layout the packed structs, the header and checkMsg, Build the senders up to the send, Parse the
-- parsers, Transfer the sends and receives over an interface of the socket operations, with the
-- number of attempts as fuel where the code counts them. A buffer from new[] holds arbitrary
-- bytes. The search of a parser for the zero of a name is bounded by the bytes received.
--
-- Lock is ReaderWriterLock: each thread stands at a program counter, a step is one atomic
-- operation of some thread, and a schedule is a sequence of steps (Reach). Counters wrap at their
-- widths. MultiReaderWriterLock and the locks between processes are not modelled.
--
-- Track is Trackable: keys and objects are numbers, what createNew returns is an argument, and
-- each operation runs under the table's lock. Prefetch is DeltaPrefetcher::getBlocks, whose loop
-- is recursion on the number of blocks that it may take.
--
-- Chain is src/caches/Cache.cpp: the list of levels with addCacheLevel and the search by level,
-- and the window of request times, whose wrap-around at 8 and 64 bits is written out. Request is
-- requestBlock and bufferWrite of a base cache whose next level is a bounded cache, and Balance
-- the two together; the task that a buffered write hands to the pool is a request in a list, and
-- the counter of outstanding writes is left out. Prefetch is prefetch, over an interface of the
-- calls that it makes, and Given the calls written down; a map of pending reads is the list of
-- its keys, and the order in which it is walked an argument.
--
-- Register is src/common/FileCacheRegister.cpp: the table of names as one array of bytes with
-- rows of MAXFILENAME, and its two searches, recursive on the rows left. The spin locks and the
-- shared mapping around it are left out.
--
-- Pool is src/common/PriorityThreadPool.cpp: Queue what addTask and a round of workLoop do under
-- the queue's lock, where std::priority_queue is a list with the entry that the comparator puts
-- on top; Threads the users and threads; Drain the wait of terminate, which reads the queue's
-- size as a sequence of numbers, with a bound on its rounds as fuel. Time stamps and counters
-- wrap at 32 bits.
--
-- Output is src/client/OutputFile.cpp: Types the state and the tasks handed to the pools, with a
-- buffer as an array of bytes; Open what open keeps; Write the whole of write, seek and the last
-- buffer of close, whose loop has the rounds as fuel; View what the tasks and the buffer make of
-- a file when each is put at the position that its message names (ServeFile::writeData of the
-- server, which opens the file for appending, is not modelled); Transfer the tasks in the pools
-- as a relation of steps of their workers, with the sequence numbers of 32 bits. Whether the
-- transfer pool was idle is an argument of a write. The bytes of a compressed task are those
-- before compression.
--
-- Socket is sendMsg and recvMsg of src/common/Connection.cpp for a thread that holds a socket,
-- over rsend and rrecv as an interface. The fuel is a product of the bytes and the configured
-- retries, within which the loops always end. Its connection is one that Message asks for.
--
-- Remote is the way of a block from a server to the network cache: Request is requestBlk of
-- src/caches/NetworkCache.cpp over the messages of Message; Server the server's answer to it,
-- requestBlockFromFile of src/server/Server.cpp and transferBlk of src/server/ServeFile.cpp, over
-- a connection of its own; Served their composition. Read is the task of NetworkCache::readBlock
-- with its retries, over the pool of connections of src/common/ConnectionPool.cpp (Connections),
-- and Servers the threads that open a file on its servers, each as one step, without the guard
-- and the wait of openFileOnAllServers. The choice of a connection by measured rates, the data
-- that the server's own caches give, and LZ4_decompress_safe are arguments. Loops are recursion
-- on the attempts and blocks left.
--
-- Not modelled: the caches in shared memory and files, the other messages of the server, the
-- interposed C library and the copied lz4 and xxhash, the queue of sockets and the polling of
-- Connection.cpp, which are input and output, glue or further components.
pub mod Base
pub mod Bounded
pub mod File
pub mod Message
pub mod Lock
pub mod Track
pub mod Prefetch
pub mod Chain
pub mod Register
pub mod Pool
pub mod Output
pub mod Socket
pub mod Remote
