-- ===== src/Memory/SizeStats.antt =====
-- mountpoint-s3-fs/src/memory/stats.rs: `SizePoolStats`, with the `PoolStats` that the size pools share.
use mountpoint_s.Prelude.{ℕ, ◌+w◌, ◌-w◌}
use mountpoint_s.Memory.Stats
use mountpoint_s.Memory.Stats.{BufferKind, PoolStats}

-- `reserved_buffers` is an array with a field for each kind, as in `PoolStats`.
pub record SizePoolStats : Type 0 where
  pub buffer_size : ℕ
  pub empty_pages : ℕ
  pub reserved_buffers : PoolStats
  pub pool_stats : PoolStats

abbrev pub zero_stats : PoolStats
zero_stats = record { get_object = 0; put_object = 0; disk_cache = 0; append = 0; other = 0 }

unfoldable pub new : ℕ → PoolStats → SizePoolStats
new buffer_size pool_stats = record {
  buffer_size = buffer_size;
  empty_pages = 0;
  reserved_buffers = zero_stats;
  pool_stats = pool_stats;
}

unfoldable pub add_empty_page : SizePoolStats → SizePoolStats
add_empty_page s = record s { empty_pages = s.empty_pages +w 1 }

unfoldable pub remove_empty_page : SizePoolStats → SizePoolStats
remove_empty_page s = record s { empty_pages = s.empty_pages -w 1 }

unfoldable pub reserved_buffers_of : SizePoolStats → BufferKind → ℕ
reserved_buffers_of s kind = Stats.reserved_bytes s.reserved_buffers kind

unfoldable pub add_reserved_buffer : SizePoolStats → BufferKind → SizePoolStats
add_reserved_buffer s kind = record s {
  reserved_buffers = Stats.reserve_bytes s.reserved_buffers 1 kind;
  pool_stats = Stats.reserve_bytes s.pool_stats s.buffer_size kind;
}

unfoldable pub remove_reserved_buffer : SizePoolStats → BufferKind → SizePoolStats
remove_reserved_buffer s kind = record s {
  reserved_buffers = Stats.release_bytes s.reserved_buffers 1 kind;
  pool_stats = Stats.release_bytes s.pool_stats s.buffer_size kind;
}
