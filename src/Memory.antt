-- ===== src/Memory.antt =====
-- mountpoint-s3-fs/src/memory and mountpoint-s3-fs/src/mem_limiter.rs: who may use how much memory.
pub mod Bits
pub mod Stats
pub mod SizeStats
pub mod Pages
pub mod SizePool
pub mod Pool
pub mod Limiter
