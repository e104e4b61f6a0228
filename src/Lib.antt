-- ===== src/Lib.antt =====
-- logger_double_buffer: a model of the asynchronous logger with double-buffered shards and
-- upload.
--
-- The program. A Logger (asyncloguploader/logger.go) has a collection of shards; LogBytes writes
-- a message, with a length prefix, into a shard that it picks at random. A shard has two
-- buffers, one that is written and one that waits for a flush, and swaps them at nine tenths of
-- its capacity or when a message is refused. The flush worker collects the buffers of the shards
-- that asked for it, puts a header before each and writes them in one vectored call through a
-- file writer, which rotates its files by size and offers finished ones for upload. The uploader
-- sends a file in chunks to a cloud store and composes them into one object. A manager keeps one
-- logger for each event name. A script reads the files back. An earlier logger (asynclogger) has
-- two sets of buffers instead: messages go to the buffers of the active set in turn, a full set
-- is swapped as a whole, and the set that was active goes to the flush worker; its buffers are
-- written by many goroutines at once, which reserve their ranges by a compare-and-swap on the
-- offset.
--
-- Files. Base: shared names, tests, lists with native indices, byte slices, Go's int and int32.
-- Shard: asyncloguploader/shard.go, one function for each method (Write is write, trySwap
-- try_swap, GetData get_data, ResetEnhanced reset_enhanced); Shard/Invariant, Contents, Outcome,
-- Reset and Threshold prove it against lists of messages. ShardCollection:
-- asyncloguploader/shard_collection.go (Build: construction, Writes: writes). Logger:
-- asyncloguploader/logger.go with the statistics and LogBytes; Logger/Flush is
-- flushShardsEnhanced, Logger/Worker the flush worker, the ticker, the drain of the channel and
-- Close; Logger/Accounting, Blocks, Halves, Resets, Batch and Queue prove them. FileWriter:
-- asyncloguploader/file_writer_linux.go (Rotation, Laws, Contents; Disk is a kernel in memory). Config: asyncloguploader/config.go (Laws).
-- LoggerManager: asyncloguploader/logger_manager.go (Names, Registry), where calls run one after
-- another, but for the last step of getOrCreateLogger. ChunkManager: asyncloguploader/chunk_manager.go (Groups, Levels, Compose).
-- Uploader: asyncloguploader/uploader.go (Parallel, Counts). LogFile: scripts/parse_log_file.go
-- (Entries, Blocks). AsyncBuffer: asynclogger/buffer.go, which asynclogger/shard.go passes its
-- calls on to, and the allocation of asynclogger/directio_linux.go (write is Write run alone).
-- AsyncBuffer/Steps has Write as a step relation of many goroutines; Slices, Layout, Moves,
-- Puts, Known, Order and Linear carry its invariant, Runs states what every run has, Schedules
-- plays runs given as lists of moves, Alone compares the steps with write, Fresh is about
-- NewBuffer and Reset. BufferSet: asynclogger/buffer_set.go (Room, Sequence, Rounds, Batch:
-- buffers and sets as lists of messages). AsyncLogger: asynclogger/logger.go with New, LogBytes
-- and trySwap; AsyncLogger/Flush is flushSet, the workers and Close; Build, Outcomes,
-- Accounting, Swaps, Collects, Sets, Batches, Drains and Closing prove them, Untouched, Messages
-- and History follow a logger through calls, ticks and flushes in any order. The Tests of each
-- component run it on small inputs.
--
-- The model. State is passed explicitly; a Go panic is `none`. int32 and int64 wrap as in Go. In
-- AsyncBuffer/Steps the writers of a buffer interleave: each atomic operation and each copy of
-- Write is a step, any goroutine may take the next one, and new calls may start at any point.
-- Elsewhere goroutines run one after another: what the schedule decides (the shard picked,
-- whether a semaphore is acquired in time, the inflight counts that GetData loads, whether a
-- wait was interrupted, how long a call took) is an argument. The kernel, the cloud store, the
-- local files and the loggers of the manager are interfaces over a state of their own; where a
-- theorem relies on the cloud store or on the kernel, its documented behaviour is a hypothesis,
-- and a store or a kernel in memory shows that it can hold.
--
-- Bounds and fuel. The theorems on Write ask that the capacity, the payload and its prefix
-- together stay below 2 GiB, so that no int32 sum wraps. A goroutine alone in Write of
-- AsyncBuffer makes nine steps at most. The log reader's loops run on the bytes left plus one,
-- and each round takes one byte at least. The levels of a compose run on the number of chunks: a
-- level with groups of two or more is shorter than the one below.
--
-- Not modelled: interleavings inside Write of asyncloguploader/shard.go, and between writers and
-- a flush; construction of Logger and Uploader of asyncloguploader with their goroutines;
-- aggregated statistics; the writer for other systems (asyncloguploader/file_writer_default.go);
-- of asynclogger, the variant with size rotation, the manager, the file writer and the
-- statistics snapshots; the loggers in logger, which are other programs of the repository;
-- servers, clients, load tests and scripts over benchmark output.
pub mod Base
pub mod Shard
pub mod LogFile
pub mod ShardCollection
pub mod Logger
pub mod Config
pub mod FileWriter
pub mod LoggerManager
pub mod ChunkManager
pub mod Uploader
pub mod AsyncBuffer
pub mod AsyncLogger
pub mod BufferSet
