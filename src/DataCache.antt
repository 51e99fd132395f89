-- ===== src/DataCache.antt =====
-- mountpoint-s3-fs/src/data_cache.rs: the trait `DataCache`, as a record of its operations on a state.
--
-- A block is known by the object and its index; the cache checks that the offset fits the index. The
-- implementations are the children.
pub mod InMemory
pub mod Multilevel
mod Tests
use mountpoint_s.Prelude.{ℕ, Option, some, none, Outcome, ok, err, panic, ◌≡◌}
use mountpoint_s.Checksums.{ChecksummedBytes}
use mountpoint_s.Prefetch.Part.{ObjectId}

pub data DataCacheError : Type 0 where
  io_failure : DataCacheError
  invalid_block_header : DataCacheError
  invalid_block_checksum : DataCacheError
  invalid_block_content : DataCacheError
  invalid_block_offset : DataCacheError
  eviction_failure : DataCacheError

-- `get_block` takes the key, the index, the offset and the object's size, and may change the cache too;
-- `put_block` takes the bytes before the size.
pub record DataCache (S : Type 0) : Type 0 where
  pub get_block : S → ObjectId → ℕ → ℕ → ℕ → Outcome DataCacheError (Option ChecksummedBytes) × S
  pub put_block :
      S → ObjectId → ℕ → ℕ → ChecksummedBytes → ℕ → Outcome DataCacheError (Unit {0}) × S
  pub block_size : ℕ

-- What a `get_block` may answer, where `Good` says which bytes a block may have.
abbrev pub Answers :
    (ObjectId → ℕ → ChecksummedBytes → Type 0)
    → ObjectId
    → ℕ
    → Outcome DataCacheError (Option ChecksummedBytes)
    → Type 0
Answers Good id index (ok (some bytes)) = Good id index bytes
Answers Good id index (ok none) = Unit
Answers Good id index (err e) = Unit
Answers Good id index panic = ⊥

abbrev pub Stores : Outcome DataCacheError (Unit {0}) → Type 0
Stores (ok u) = Unit
Stores (err e) = Unit
Stores panic = ⊥

-- A cache that gives back good blocks only, as long as good blocks only are put into it: `Keeps` is
-- what holds of its state between the calls. It may lose blocks, and it may fail; it does not panic.
pub record IsFaithful {S : Type 0} (cache : DataCache S)
    (Good : ObjectId → ℕ → ChecksummedBytes → Type 0) (Keeps : S → Type 0) : Type 0 where
  pub get :
      (s : S) (id : ObjectId) (index offset size : ℕ)
      → Keeps s
      → Answers Good id index (cache.get_block s id index offset size).0
        × Keeps (cache.get_block s id index offset size).1
  pub put :
      (s : S) (id : ObjectId) (index offset : ℕ) (bytes : ChecksummedBytes) (size : ℕ)
      → Keeps s
      → Good id index bytes
      → Stores (cache.put_block s id index offset bytes size).0
        × Keeps (cache.put_block s id index offset bytes size).1
