-- ===== src/Lib.antt =====
-- MyNet, a C++ network library in the manner of muduo: byte buffers and channels under MyNet/net,
-- threads, queues, dates and logging under MyNet/base.
--
-- The parts, and the files that model them:
--   Endian, Endian/Wire             MyNet/net/Endian.h: the byte order of integers
--   Buffer and its children         MyNet/net/Buffer.h, Buffer.cc: the byte buffer of a connection.
--     Integers, Search, Input       its integers, searches and `readFd`; Valid, Space, Stream, Shrink,
--                                   Received and Search/First hold what each operation does, Queue and
--                                   Refine the queue of bytes that the buffer implements, Framing and
--                                   Messages the integers that two hosts exchange.
--   Channel, Interest, Dispatch,    MyNet/net/Channel.h, Channel.cc: events asked for and dispatched, and
--     Text                          their text
--   Condition                       MyNet/base/Condition.h with Mutex.h: what the next four build on
--   BlockingQueue, Wakeup           MyNet/base/BlockingQueue.h
--   BoundedBlockingQueue, Wakeup    MyNet/base/BoundedBlockingQueue.h
--   CountDownLatch, Gate            MyNet/base/CountDownLatch.h, CountDownLatch.cc
--   ThreadPool, Tasks               MyNet/base/ThreadPool.h, ThreadPool.cc: the queue of tasks
--   ThreadPool/Workers              its threads, each at a place of `runInThread`; Refines holds the queue and bag of
--                                   tasks that the pool implements, Threads and Conserved what is kept, Work
--                                   and Settled the end.
--   Date and its children           MyNet/base/Date.h, Date.cc: Julian day numbers
--   LogStream and its children      MyNet/base/LogStream.h, LogStream.cc: a line of the log
--   AsyncLogging, Shapes, Lines     MyNet/base/AsyncLogging.h, AsyncLogging.cc: the buffers between the
--                                   threads that log and the thread that writes
--   AsyncLogging/Lifetime           the object from `start` to its destructor, over CountDownLatch and LogFile:
--                                   Rounds is about a round of the thread, Places about its places and those
--                                   of the owner, Files about the text in the files, Ending about its end.
--   FileUtil and its children       MyNet/base/FileUtil.h, FileUtil.cc: reading and writing files
--   ProcessInfo, Names, Unread      MyNet/base/ProcessInfo.cc: what the process reads about itself
--   LogFile, Rolling, Appends       MyNet/base/LogFile.h, LogFile.cc: a log over several files
--   Logging and its children        MyNet/base/Logging.h, Logging.cc: a line from the macro to the output.
--                                   Files holds the names of source files, Lines and Output the text.
--   Timestamp, Order                MyNet/base/Timestamp.h, Timestamp.cc: microseconds since 1970
--   TimeZone and its children       MyNet/base/TimeZone.h, TimeZone.cc: File reads a zone file, Lookup is about
--                                   the search for a local time, Clock about the time of day, Format, and Reads
--                                   and Roundtrip about the format of the file.
--   Mutex, Holder, Waiting          MyNet/base/Mutex.h, Condition.h, Condition.cc: a lock and who says that it
--                                   holds it, in a wait as well
--   ThreadLocals, Own               MyNet/base/Singleton.h, ThreadLocal.h, ThreadLocalSingleton.h: objects made once
--   Exception                       MyNet/base/Exception.h, Exception.cc: a message and the text of a stack
--   Atomic, Counting                MyNet/base/Atomic.h: integers that threads change in one step
--   ThreadOp, Cached                MyNet/base/ThreadOp.h with Thread.cc: what a thread keeps about itself
--   Thread, Lifetime, Names         MyNet/base/Thread.h, Thread.cc: the object behind a thread
--   Sockets, Addresses, Calls       MyNet/net/SocketsOps.cc, InetAddress.h, InetAddress.cc, Socket.cc: addresses,
--                                   and what is asked of the system
--   Acceptor, Descriptors           MyNet/net/Acceptor.h, Acceptor.cc: the listening socket, over Channel and
--                                   Sockets
--   Connector, Sockets              MyNet/net/Connector.h, Connector.cc: attempts to reach a server
--   Common, Tests                   shared types and lemmas; examples
--
-- How state and operations correspond to the code: a class is a record of its fields, a method is
-- a function from the record to its result and the new record, named as in the source but in
-- small letters with underscores. A pointer into a block of memory is an index. A failed `assert`
-- and an exception of the standard library are faults of the `Outcome` type; `Attempt` is the
-- result of a call that may also wait for another thread. A line of the log is made by Logging in
-- the buffer of LogStream, with the time of Timestamp and the number of ThreadOp, and given to a
-- function of the user's, for which AsyncLogging and LogFile are there; LogFile writes through
-- FileUtil under the lock of Mutex. `size_t` wraps at 2 ^ 64; an `int` is its value, and
-- overflow, which C++ leaves undefined, is not modelled. A class shared by threads is modelled by
-- the stretches of its methods under the mutex: a `wait` ends a stretch and a wakeup begins the
-- next one, at the test of the loop; a `Trace` is any interleaving of those stretches by any
-- number of threads, with wakeups that nobody asked for included.
--
-- What is not in the repository is a parameter: `readv`, `read`, `fwrite_unlocked`, `accept`,
-- `open`, `inet_ntop`, `inet_pton`, `gethostname`, `gmtime_r`, `strftime`, the formats of
-- `snprintf`, `boost::circular_buffer` (an interface of operations and laws), the methods of
-- Connector.h that no file defines, and `toStringPiece`, which Buffer.h calls and no file
-- declares.
--
-- Fuel: the loops of FileUtil.cc run on fuel, and the theorems on them say how much is enough:
-- one more than the length of the line that is written, and one more than the largest size of
-- what is read with the number of calls that may be interrupted; the log file hands its own on to
-- the first of them, and the asynchronous log needs more than the size of a buffer.
-- `readToBuffer` needs one more than the calls that give -1, and no fuel is enough for it where
-- all of them do. The loops of `convert` and `convertHex` run on fuel, of which `convert` and
-- `convert_hex` give one more than the number's size. That is enough, as the text is read back as
-- the number.
--
-- Not modelled: what only calls the system, as the times of a process and of a file and `read`
-- and `write` of a socket; floating numbers; `toLocalTime`, whose result is not initialised; log
-- output of channels and connectors; the tests. EventLoop.h is an empty file, and time-sem.c is a
-- program of another project.
pub mod Acceptor
pub mod AsyncLogging
pub mod Atomic
pub mod BlockingQueue
pub mod BoundedBlockingQueue
pub mod Buffer
pub mod Channel
pub mod Common
pub mod Condition
pub mod Connector
pub mod CountDownLatch
pub mod Date
pub mod Endian
pub mod Exception
pub mod FileUtil
pub mod LogFile
pub mod LogStream
pub mod Logging
pub mod Mutex
pub mod ProcessInfo
pub mod Sockets
pub mod Tests
pub mod Thread
pub mod ThreadLocals
pub mod ThreadOp
pub mod ThreadPool
pub mod TimeZone
pub mod Timestamp
