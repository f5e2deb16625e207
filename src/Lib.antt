-- ===== src/Lib.antt =====
-- Dserver: a network library in C++ after the reactor pattern, with an HTTP server on top.
--
-- A loop per thread (src/net/EventLoop.cc) waits in a poller (src/net/Epoller.cc) for the events
-- of its channels (src/net/Channel.cc), and runs the callbacks of those that are ready. A
-- connection reads its socket into an input buffer (src/net/Buffer.h), and the HTTP server runs a
-- parser (src/net/http/HttpContext.cc) on that buffer each time bytes arrive; a parser keeps its
-- state between two arrivals, since a request may come in any number of parts.
--
-- Prelude: shared names, lists over the native numbers, the tests of bytes, and `none` as the
--   outcome of a failed assert or of an exception that nothing catches.
-- Buffer: src/net/Buffer.h and src/net/Buffer.cc. A `Buffer` is the block of bytes with the two
--   indices. An iterator or pointer is an index into the block, a null pointer is `none`, and
--   size_t wraps at 2 ^ 64. `readv` is an argument of `read_fd`: it is given the room that it is
--   offered, and answers with the bytes that it stored or with an error. `Buffer.Contents` has the
--   bytes that a buffer holds and the invariant on the indices; `Buffer.Fifo` has the queue of
--   bytes that the buffer implements.
-- Http: src/net/http. `Http.Headers` is the map of headers, in the order of its keys, `Http.Request`
--   is HttpRequest.h, and `Http.Context` is HttpContext.h and HttpContext.cc, where `parse_request`
--   is `parseRequest`, a turn of its loop is `turn`, and the loop runs on fuel. Each turn that goes
--   on takes a line out of the buffer, so one unit more than the number of readable bytes is
--   enough. `Http.Context.Lines` states what the parser does on the list of bytes alone, with no
--   buffer and no fuel, and the modules beside it relate the two. `Http.Response` is HttpResponse.h
--   and HttpResponse.cc, and `Http.Response.Printing` has the text of a response.
-- Channel: src/net/Channel.h and src/net/Channel.cc. The sets of poll flags are records of flags.
--   A switch changes the mask, and `update()` hands the channel to the poller.
-- Poller: src/net/Epoller.cc. The state has the table from descriptors to channels, a heap for the
--   channels that its pointers lead to, and the kernel's interest set. The calls of epoll_ctl are
--   an interface, the record `Epoll`, with what its manual page says of them as long as they do not
--   lack memory or watches and the descriptors are open and can be watched; this is the condition
--   `HasResources`, which a consistent poller is to have. What epoll_wait
--   returns is an argument; LOG_SYSFATAL is `none`, as it aborts. `Poller.Invariant` has what ties
--   the three parts of the state together.
-- TimerQueue: src/net/TimerQueue.cc with src/net/Timer.h. A `Timer*` is an address, the heap has the
--   timers that are not deleted, and reading a deleted one is `none`. A time is a number of
--   microseconds without bound; the interval is the number that `addTime` makes of its argument.
--   `TimerQueue.Alarm` is the time that the timerfd is given, with timerfd_settime as an interface; an
--   operation that sets the timerfd is given the time that resetTimerfd reads.
--   `TimerQueue.Sets` is `std::set` of pairs, `TimerQueue.Invariant` what ties the two sets and the
--   heap, and the modules beside them have one operation each. What the callbacks do to the queue
--   is an argument of `handle_read`.
-- TcpConnection: src/net/TcpConnection.cc, over its two buffers and its channel in the loop's poller.
--   `wire` has the bytes that the socket was given, and `write_shut` whether its writing side was
--   shut. What `write` and `readv` return and what the callbacks do are arguments, and `queued` has
--   the tasks for the loop. `TcpConnection.Steps` and `TcpConnection.Stream` run sends and
--   shutdowns of the loop's own thread and write events, `TcpConnection.Draining` the write events that empty the buffer, and
--   `TcpConnection.Lifecycle` has the beginning and the end of a connection.
-- Acceptor: src/net/Acceptor.cc. What `accept` and `open` answer is a list, from which `handle_read`
--   takes one answer for each call; a call that finds none left is where the thread is.
-- TcpServer: src/net/TcpServer.cc and src/net/EventLoopThreadPool.cc: the acceptors that `start` makes,
--   and `newConnection`, from the constructor of a connection to its callback. A loop is an address.
-- EventLoop: src/net/EventLoop.cc. The thread of the loop is at a point of `loop()` or of
--   `doPendingFunctors()`, and `thread_step` takes it to the next. `EventLoop.Steps` lets its steps
--   and the calls of `queueInLoop` and `quit` from any thread follow each other in any order; the
--   thread of the loop makes such calls in its callbacks and functors and outside `loop()`, where they
--   do not wake it. The eventfd is an interface,
--   the record `Eventfd`, with what its manual page says.
-- EventLoopThread: src/net/EventLoopThread.cc over src/base/Thread.cc and src/base/CountDownLatch.cc:
--   the start of a thread and of its loop. The owner and the new thread are each at a place, and a
--   step is what one of them does between two points at which the other may run.
-- LogStream: src/base/LogStream.h and src/base/LogStream.cc. A `FixedBuffer` is its size with the
--   bytes before `cur_`, and writing past the end is `none`. Sizes become an `int`
--   where `append` takes one. The loops of `convert` and `convertHex`
--   run on fuel, one unit more than the number's magnitude; each turn divides it by the base.
-- Timestamp: src/base/Timestamp.h and src/base/Timestamp.cc. A time is a number of microseconds
--   that is not negative, and `gmtime_r` is an argument.
-- Logging: src/base/Logging.h and src/base/Logging.cc, with src/base/CurrentThread.h: a line from its
--   macro to the output function, over LogStream and Timestamp. `ThreadData` is what is local to
--   the thread, the texts of the last second and of the thread's number. `Logging.Headers` has the
--   beginning of a line, and `Logging.Lines` whole lines.
-- AsyncLogging: src/base/AsyncLogging.cc. A `unique_ptr` is an option. `act_all` runs calls of `append`
--   and `stop` and steps of `threadFunc` in any order; `output` has what the log file was given.
-- LogFile: src/base/LogFile.cc and src/base/FileUtil.cc. What `fwrite` takes in each call and the time are
--   arguments. The loop of `append` runs on fuel, one unit more than the bytes that are left.
-- InetAddress: src/net/InetAddress.cc with src/net/Endian.h and the functions of src/net/SocketOps.cc
--   on addresses. `inet_pton` and `inet_ntop` are an interface, the record `Inet`, with the form of
--   the text that their manual pages give.
-- FileServer: src/fileServer/fileServer.cc, `onMessage`, on a buffer. The disk and the passwords are
--   maps from names, no two of which lead to one file, and an `int` is a word of 32 bits. A loop
--   that waits for what only its own thread could bring is the outcome `spins`. The loop over
--   packets runs on fuel, one unit more than the readable bytes, and each round takes four at
--   least. `FileServer.Requests` has the requests as data and what each is to do,
--   `FileServer.Turns` and `FileServer.Serving` relate them to the code, and
--   `FileServer.Failures` has the requests that end it.
-- ThreadPool: src/base/ThreadPool.h and src/base/ThreadPool.cc. A call of `put` or `take` makes a pass
--   under the lock, which ends with a result or asleep on a condition; a thread that was woken makes
--   the pass again. `ThreadPool.Waking` lets the passes and wakings of all threads follow each other
--   in any order.
-- Http.Server: src/net/http/HttpServer.cc, over the parser, the response and the connection. The
--   callback of the user is an argument.
-- Tests: runs on small inputs, and the theorems at inputs that meet their hypotheses.
--
-- Not modelled: what the components log or print, the strings for debugging, the assertions on the
-- thread that runs, the wrappers of the sockets API (src/net/Socket.cc and the rest of
-- src/net/SocketOps.cc) and of threads and locks (src/base/Mutex.h, src/base/Condition.cc, and the
-- rest of src/base/Thread.cc), which only call it, the text of a floating point number and times
-- made of one, the addresses and the context of a connection, the setters of one callback, the
-- removal of a connection from its server, which only queues `connectDestroyed`, the end of a
-- thread, and the `main` functions.
pub mod Acceptor
pub mod AsyncLogging
pub mod Buffer
pub mod Channel
pub mod EventLoop
pub mod EventLoopThread
pub mod FileServer
pub mod Http
pub mod InetAddress
pub mod LogFile
pub mod LogStream
pub mod Logging
pub mod Poller
pub mod Prelude
pub mod TcpConnection
pub mod TcpServer
pub mod Tests
pub mod ThreadPool
pub mod TimerQueue
pub mod Timestamp
