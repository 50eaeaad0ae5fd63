-- ===== src/Lib.antt =====
-- structlog, the logging library spdlog with structured output: its core, as functions and theorems.
--
-- A call of a logger compares a level with the logger's, makes a message of its arguments and hands it
-- to the logger's sinks; a backtracer keeps the last messages. An asynchronous logger posts the message
-- to a thread pool, whose workers take it from a blocking queue. A sink formats the message by a
-- compiled pattern and writes the text, perhaps to a file that is rotated when it gets too large.
--
-- Files and code:
-- - CircularQ: include/spdlog/details/circular_q.h. Valid has the invariant of the representation,
--   Window and Moves the indices, Refine the list of the items, Counts the counter of overruns.
-- - Level, LogMsg: the levels and their names in include/spdlog/common.h and
--   include/spdlog/common-inl.h, source_loc, and log_msg of include/spdlog/details/log_msg.h.
-- - Backtracer: include/spdlog/details/backtracer-inl.h, and last_raw of
--   include/spdlog/sinks/ringbuffer_sink.h, whose sink is in RingBuffer.
-- - Logger: include/spdlog/logger.h and include/spdlog/logger-inl.h, over an interface of sinks
--   (Sinks, for include/spdlog/sinks/sink.h). Deliver is about the messages that reach a sink,
--   Backtrace about the calls of the logger.
-- - Registry: include/spdlog/details/registry.h and include/spdlog/details/registry-inl.h. Apply has the
--   changes of all loggers, Default the map of loggers and the default logger, Configure the
--   loggers that are new, Histories the operations from the constructor on.
-- - GlobalPool: include/spdlog/async.h, include/spdlog/details/synchronous_factory.h, and the thread pool,
--   the flusher and shutdown of include/spdlog/details/registry-inl.h. Flushing is about flush_all, Runs has
--   the calls of a program, Attached and Gone which pools are there after them.
-- - Config: include/spdlog/cfg/helpers-inl.h.
-- - BlockingQ: include/spdlog/details/mpmc_blocking_q.h. Fifo has the operations on the list of
--   items, Order the runs.
-- - ThreadPool: include/spdlog/details/thread_pool.h and include/spdlog/details/thread_pool-inl.h. Run has
--   the steps of the loggers, the workers and the destructor, Drains the invariant of the runs,
--   Shutdown and Ends the end of the pool.
-- - FmtHelper: include/spdlog/details/fmt_helper.h. Padding: padding_info and scoped_padder of
--   include/spdlog/pattern_formatter.h and include/spdlog/pattern_formatter-inl.h.
-- - Pattern: the rest of include/spdlog/pattern_formatter-inl.h. Time, Fields, Source and Full are
--   the flags' formatters, Formatter and Compile the compiler of patterns, Format the formatting
--   of a message; Language, Readback and Rounds are about compiled patterns, Caches and Fixed
--   about the flags, Clones about copies of a formatter, Growth and ColorRange about the length of
--   the text and the color range in it.
-- - FileName: dir_name of include/spdlog/details/os-inl.h, split_by_extension of
--   include/spdlog/details/file_helper-inl.h and calc_filename of
--   include/spdlog/sinks/rotating_file_sink-inl.h. FileHelper:
--   include/spdlog/details/file_helper-inl.h and create_dir of include/spdlog/details/os-inl.h.
--   Rotating: include/spdlog/sinks/rotating_file_sink-inl.h.
-- - DatedFile: include/spdlog/sinks/daily_file_sink.h and include/spdlog/sinks/hourly_file_sink.h. Daily and
--   Hourly have what the two differ in, Queue and Runs the old files, Existing the files found at the start,
--   NextTime the time of a rotation.
-- - DistSink: include/spdlog/sinks/dist_sink.h, on include/spdlog/sinks/base_sink-inl.h. DupFilter:
--   include/spdlog/sinks/dup_filter_sink.h. AnsiColor: include/spdlog/sinks/ansicolor_sink.h and
--   include/spdlog/sinks/ansicolor_sink-inl.h; Parts is about what is written, Patterns joins it
--   with the pattern formatter.
-- - AsyncLogger: include/spdlog/async_logger.h and include/spdlog/async_logger-inl.h, joined with ThreadPool
--   and Logger. ErrHandler: err_handler_ and the copies of a logger, and its
--   set_formatter, of include/spdlog/logger-inl.h.
-- - JsonFormatter: include/spdlog/json_formatter-inl.h and include/spdlog/populators-inl.h. Executor:
--   include/spdlog/details/executor.h and include/spdlog/details/executor-inl.h.
-- - LogMsgBuffer: include/spdlog/details/log_msg_buffer.h and include/spdlog/details/log_msg_buffer-inl.h.
-- - Network: the calls of the system on sockets; Owned is about open descriptors. TcpClient:
--   include/spdlog/details/tcp_client.h and include/spdlog/sinks/tcp_sink.h. UdpClient:
--   include/spdlog/details/udp_client.h and include/spdlog/sinks/udp_sink.h.
-- - PeriodicWorker: include/spdlog/details/periodic_worker.h and
--   include/spdlog/details/periodic_worker-inl.h; Ends has its runs.
-- - BinToHex: include/spdlog/fmt/bin_to_hex.h. Lines, Steps and Whole have the layout of a dump, Flags the
--   text of the flags, Digits the bytes read back.
-- - Common: numbers, lists, integers and texts that the others share.
--
-- How the code is read. `size_t` is a number below 2^64 with its wrap-around written out. A text is the
-- list of its bytes. `none`, or a Boolean of false where a comment says so, is a throw, a call that
-- waits, or undefined behaviour. A mutex makes what it protects one step; concurrent calls are
-- sequences of such steps, in any order. The workers of a pool call the backends of the loggers outside of the
-- queue's mutex, so that the calls of several workers overlap. What stands outside the repository's own code is a parameter:
-- the text that fmt makes of a number (Fmt, with the laws of Decimal), the calls of the operating
-- system on files (Os, with the laws of Posix, Writes, Opens and Healthy) and on sockets (Net, with the laws of
-- Descriptors, Streams and Posts), the conversions of time (Calendar, with
-- the laws Days and Hours), the JSON library (Json), whether the target is a terminal that shows colors,
-- and the sinks of a logger (Observed), which throw nothing but a `std::exception` where a plain or
-- asynchronous logger calls them, and whose error handler returns. FmtHelper.Printer, FileHelper.Memory, Network.Loopback, DatedFile.Utc and
-- DistSink.Recorder are concrete instances.
--
-- Bounds. compile_pattern has one round more than the pattern has characters, each of which takes at
-- least one of them; foreach_pop has one round more than the queue has items, each of which takes one.
-- The loop of a TCP client's `send` has one round more than there are bytes, each of which takes one at least.
-- The tries of `open` are those of the source.
-- The other loops are recursion on the data they read.
--
-- Not modelled: the sinks that make one call for each message (basic, ostream, stdout), the
-- sinks of system services, the
-- params of a log_msg_buffer, and everything specific to Windows. The vendored fmt and JSON libraries are
-- left aside.
pub mod Common
pub mod CircularQ
pub mod Level
pub mod LogMsg
pub mod LogMsgBuffer
pub mod Backtracer
pub mod Logger
pub mod ErrHandler
pub mod Registry
pub mod RingBuffer
pub mod Network
pub mod TcpClient
pub mod UdpClient
pub mod GlobalPool
pub mod PeriodicWorker
pub mod Config
pub mod BlockingQ
pub mod ThreadPool
pub mod AsyncLogger
pub mod FmtHelper
pub mod FileName
pub mod FileHelper
pub mod AnsiColor
pub mod DistSink
pub mod DupFilter
pub mod JsonFormatter
pub mod Executor
pub mod Rotating
pub mod DatedFile
pub mod Padding
pub mod Pattern
pub mod BinToHex
