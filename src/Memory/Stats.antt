-- ===== src/Memory/Stats.antt =====
-- mountpoint-s3-fs/src/memory/stats.rs: the bytes reserved in the pool, for each kind of buffer.
use mountpoint_s.Prelude.{ℕ, ◌+w◌, ◌-w◌}

pub data BufferKind : Type 0 where
  get_object put_object disk_cache append other : BufferKind

-- `MetaRequestType` of the client's configuration.
pub data MetaRequestType : Type 0 where
  default get_object put_object copy_object : MetaRequestType

-- `impl From<MetaRequestType> for BufferKind`.
unfoldable pub kind_of : MetaRequestType → BufferKind
kind_of MetaRequestType.default = BufferKind.other
kind_of MetaRequestType.copy_object = BufferKind.other
kind_of MetaRequestType.get_object = BufferKind.get_object
kind_of MetaRequestType.put_object = BufferKind.put_object

-- The array `reserved_bytes`, with a field for each index.
pub record PoolStats : Type 0 where
  pub get_object : ℕ
  pub put_object : ℕ
  pub disk_cache : ℕ
  pub append : ℕ
  pub other : ℕ

unfoldable pub reserved_bytes : PoolStats → BufferKind → ℕ
reserved_bytes s BufferKind.get_object = s.get_object
reserved_bytes s BufferKind.put_object = s.put_object
reserved_bytes s BufferKind.disk_cache = s.disk_cache
reserved_bytes s BufferKind.append = s.append
reserved_bytes s BufferKind.other = s.other

set_bytes : PoolStats → BufferKind → ℕ → PoolStats
set_bytes s BufferKind.get_object n = record s { get_object = n }
set_bytes s BufferKind.put_object n = record s { put_object = n }
set_bytes s BufferKind.disk_cache n = record s { disk_cache = n }
set_bytes s BufferKind.append n = record s { append = n }
set_bytes s BufferKind.other n = record s { other = n }

unfoldable pub reserve_bytes : PoolStats → ℕ → BufferKind → PoolStats
unfolding reserved_bytes set_bytes
reserve_bytes s bytes kind = set_bytes s kind (reserved_bytes s kind +w bytes)

unfoldable pub release_bytes : PoolStats → ℕ → BufferKind → PoolStats
unfolding reserved_bytes set_bytes
release_bytes s bytes kind = set_bytes s kind (reserved_bytes s kind -w bytes)
