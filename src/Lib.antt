-- ===== src/Lib.antt =====
-- Verification of the read path of Mountpoint for Amazon S3: how a file handle turns reads at any offset
-- into requests for an object, and gives back exactly the bytes of the object; of the pool
-- that its memory comes from; of the map of open handles; and of the incremental upload.
--
-- The parts, and how they interact:
--   * A reader (mountpoint-s3-fs/src/prefetch.rs, `PrefetchGetObject`) keeps the offset of the next
--     sequential read, a task for the rest of the object, and a window of the parts read last. A read
--     elsewhere is a seek: forwards it skips parts of the task, backwards it takes parts out of the window and
--     puts them back in front of the task's queue, and otherwise the reader is reset.
--   * A task (prefetch/task.rs) is the reader's end of one request. It takes parts from a part queue
--     (prefetch/part_queue.rs) and tells the backpressure controller of each read.
--   * The controller (prefetch/backpressure_controller.rs) decides how far ahead of the reader the request may
--     go, within the limit of the memory limiter (mem_limiter.rs), and sends increments to the producer.
--   * The producer (prefetch/part_stream.rs) makes one or two requests for the range, waits for the
--     read window, and composes parts with checksums (checksums.rs) from the bodies that the client sends.
--   * With a data cache (data_cache.rs), the producer of prefetch/caching_stream.rs looks for the blocks of the
--     range in the cache, asks the client for the rest from the first miss on, and stores the blocks of that.
--   * Buffers come from a paged pool (memory/pool.rs), which hands out the parts of its pages (memory/pages.rs).
--   * An incremental upload (upload/incremental.rs) gathers writes in buffers and hands them to a task, which
--     appends them to the object one after another.
--
-- The modules:
--   * Prelude: the names and the lemmas on lists, tests, 64-bit words and results that the others share.
--   * Checksums: `ChecksummedBytes`. The CRC32C is a parameter, `Crc`, with the law of `crc32c_combine` and
--     the checksum of no bytes; its instance for the tests is the sum of the bytes.
--   * Memory.Stats and Memory.Limiter: `PoolStats` and `MemoryLimiter`.
--   * Memory.Bits, SizeStats, Pages, SizePool and Pool: the paged pool of memory/stats.rs, pages.rs, pool.rs and
--     buffers.rs. Memory.SizePool.Steps says what may happen to a size pool and the buffers in use.
--   * Prefetch.Errors, Part, SeekWindow, PartQueue, Backpressure, Range, Task, Compose, Reader: one for each
--     type above, with the functions of the same names. Prefetch.Stream is the specification that they share:
--     parts that hold bytes of one object, and runs of such parts.
--   * DataCache: the trait `DataCache` as a record of operations, and what a client of it relies on;
--     DataCache.InMemory and DataCache.Multilevel implement it (data_cache/in_memory_data_cache.rs and
--     multilevel_cache.rs).
--   * Prefetch.Caching: the producer over a data cache. Prefetch.Caching.Shared has the cache that many requests
--     share, with the spawned updates that have not run.
--   * Superblock.HandleMap: `InodeHandleMap` of superblock/handles_map.rs, which lets either readers or one
--     writer open an inode.
--   * Upload.Hasher, Upload.Buffer and Upload.Incremental: the incremental upload of upload/incremental.rs, with the
--     caller's side in Upload.Incremental.Queue and Request. Upload.Incremental.Object is the specification of
--     what S3 does with the requests, Upload.Incremental.Calls that of the file that is written.
--   * Child modules hold the proofs; those called Tests hold the theorems at concrete inputs.
--
-- The conventions: a call takes a state and gives the state that it leaves. A panic is a result, `panic` of
-- `Outcome` or `none`. `u64` and `usize` are natural numbers with `+w`, `-w` and `*w` modulo 2^64, as in a
-- release build. What runs in parallel is an argument: `arrivals` is how many messages the producer sends before
-- each read, `waits` and `batches` what the channel of increments holds when the producer looks, and `seen` what
-- the limiter reads after each failed exchange: its counter, and the counters of the pool.
--
-- Bounds and fuel: objects have less than 2^61 bytes, so that no offset wraps. The loop of a read and the loop
-- of a forward seek have as much fuel as bytes to go, since each round takes one at least; the loop of
-- `send_feedback` has the preferred window size, which each round that goes on makes smaller; the loop of
-- `read_back` has two more than the number of parts; the loop over a body has its length; the loop that reads the
-- responses of an upload has one more than the requests that wait for one; a write has its length. No
-- statement has running out of fuel as a way to hold.
--
-- Not modelled: the client and the CRT (what a client sends for a range is a parameter), the file system
-- operations, the rest of the superblock, the atomic upload, the data caches on disk
-- and in S3 Express, what the buffers of the pool hold (an upload buffer has its own bytes), metrics and
-- logs. Debug assertions are left out, as in a release build.
pub mod Prelude
pub mod Checksums
pub mod DataCache
pub mod Memory
pub mod Prefetch
pub mod Superblock
pub mod Upload
