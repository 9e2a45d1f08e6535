-- ===== src/Lib.antt =====
-- Verification of log-it-cpp, a C++ logging library. A program calls macros that fill a LogRecord;
-- Logger hands it to backends (loggers), which format and store or send it, on an executor's thread
-- where they are asynchronous. Paths below are under include/logit_cpp/logit/.
--
-- Files and what they model:
--   Record: enums.hpp, utils/LogRecord.hpp, utils/BufferedLogEntry.hpp, loggers/ILogReader.hpp, the
--     data that backends receive and return.
--   Logger: Logger.hpp, the registry of backends, over the interfaces loggers/ILogger.hpp and
--     formatter/ILogFormatter.hpp, which are records of operations. Logger has the calls that change
--     the registry and the dispatch of a record; Clear and Reads the other calls; Dispatch, Calls and
--     Clearing what they do. Each call is one step.
--   Files: the log files of a directory, as a list of names with contents, and what the C++ library
--     does with files: opening for append, writing, renaming, removing. A name is taken apart into
--     date, kind and compression suffix; its bytes are not modelled, nor are files of other programs.
--   FileLogger: loggers/FileLogger.hpp, the daily file with rotation, retention and deletion of old
--     files. What fails outside, the time of day and the date of a time are given with each write.
--     The search for a free name runs on fuel, the greatest number in use, which is shown to be
--     enough. Naming, Retention, Current, Sizes, Limit and Losses are about names, sizes and contents;
--     Reuse, Newest and Closed about reused numbers and failed opens. auto_delete_days is not negative,
--     and files of equal rank are sorted in the order of the listing.
--   UniqueFile: loggers/UniqueFileLogger.hpp, one file for each message, with names as bytes: Spelling has
--     them and Names is about them, Saved about the files, Counts and Pending about the calls that a
--     thread waits for. Each critical section is a step. The random numbers, and what the executor does with a task, are given
--     with it; years are not negative.
--   Compression: detail/CompressionWorker.hpp, compress_file and the thread with its queue. zlib, zstd
--     and the external command are parameters; the thread works on files that nothing else changes,
--     so it is not interleaved with the FileLogger that feeds it.
--   Memory: loggers/MemoryLogger.hpp, the backend that keeps recent entries in memory. Memory has
--     its state and every operation; Retention, Calls, Reads and Callbacks are about eviction, whole
--     runs, the reads, and subscribers. The wall clock and the monotonic clock are arguments.
--   Ring: detail/MpscRingAny.hpp, the bounded lock-free queue. Each atomic access of try_push and
--     try_pop is one step, and a schedule is any list of steps of any number of producers and one
--     consumer; the memory orders are taken to make each access see the latest store. Window,
--     Invariant, Push, Publish, Claim and Pop hold the proof that the steps keep the invariant; Fifo
--     and Progress draw the conclusions. Positions stay below 2^63, the number at which the signed
--     comparison of the code would be wrong; no run of a program reaches it.
--   Executor: the queue and worker that detail/SingleThreadExecutor.hpp (Executor.Single) and
--     detail/TaskExecutor.hpp (Executor.Task, the build with a std::deque) share; each critical
--     section is a step, and waits on condition variables may wake at any time. Executor.Cooperative
--     is the build of SingleThreadExecutor for Emscripten without threads: add_task runs its loop on
--     fuel 2, and a theorem states that two rounds are always enough.
--   Mdbx: detail/MdbxByteIO.hpp, detail/MdbxKeyUtils.hpp and the serialization in
--     loggers/MdbxLogger.hpp. An exception is a value of type Result. Mdbx.Sequence is the search for
--     a free key (next_record_key_locked), on fuel for each sequence number that is left, which its
--     theorem shows to be enough; the table is a parameter.
--   Prometheus: loggers/prometheus/PrometheusTextSerializer.hpp and, in Prometheus.Registry,
--     loggers/prometheus/PrometheusRegistry.hpp. How a stream prints a double or an integer, and
--     what a metric's callback returns or throws, are parameters.
--   Splitter: loggers/otlp/OtlpPayloadSplitter.hpp; the JSON serializer is a parameter.
--   Otlp: loggers/OtlpPayloadLogger.hpp, the queue and the worker that exports batches through the
--     splitter. Each critical section, and the export of a batch, is one step; Exports has the
--     invariant of all runs, Drain the end of the queue. Otlp.Json is
--     loggers/otlp/OtlpJsonSerializer.hpp, which writes a batch; printing numbers is a parameter.
--   Context: detail/LogContext.hpp, the diagnostic context of one thread.
--   Format: formatter/ and utils/VariableValue.hpp. Format.Pattern is PatternCompiler::compile, with a
--     unit of fuel for each byte of the pattern and one more; Print gives patterns as trees,
--     independent of the compiler, and Fuel, Options, Directives and RoundTrip are about what is read
--     from them. Format, Width and Ansi have the end of FormatInstruction::apply (escape codes,
--     truncation, width and alignment; the loop of the middle truncation runs on fuel `width`, one byte
--     for each round), Colors, Values and Fields the rest of it, and Format.Formatter is
--     formatter/SimpleLogFormatter.hpp: Parts and Layouts say what a layout stands for, Written, Meanings,
--     Messages, Fitted and Render that it is what a pattern writes, Reader and Objects are about
--     JSON. The date library and the printing of a thread and of a value by printf and fmt are
--     parameters.
--   Arguments: utils/argument_utils.hpp, which takes apart the text of a call's arguments, on fuel of one
--     unit for each byte and one more.
--   Base: shared tests, lists, signed integers, words, decimal numbers and association lists.
-- The child module Tests of a part has runs on concrete inputs.
--
-- Conventions: a std::size_t or uint64_t is a natural number with its wrap-around written out where
-- the code can reach it; an int64_t is a ℤ; a text is the list of its bytes; a std::map is a list of
-- entries.
--
-- Not modelled: the macros, Logger's formatting of arguments, the reading back of files by FileLogger and
-- UniqueFileLogger, OtlpHttpLogger, the MPSC build of TaskExecutor,
-- the constructors of VariableValue (calls of the standard library), MdbxLogger's tables and threads
-- (a third-party database), console, syslog, event log, crash and HTTP backends (calls of the
-- platform), and the JSON configuration (a third-party parser).
pub mod Arguments
pub mod Base
pub mod Record
pub mod Files
pub mod Compression
pub mod FileLogger
pub mod Logger
pub mod Memory
pub mod Ring
pub mod Executor
pub mod Mdbx
pub mod Prometheus
pub mod Splitter
pub mod UniqueFile
pub mod Otlp
pub mod Context
pub mod Format
