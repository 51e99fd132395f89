-- ===== src/Prefetch.antt =====
-- mountpoint-s3-fs/src/prefetch: the reader side of a file handle.
pub mod Part
pub mod Sample
pub mod Errors
pub mod PartQueue
pub mod Stream
pub mod SeekWindow
pub mod Backpressure
pub mod Range
pub mod Task
pub mod Compose
pub mod Caching
pub mod Reader
