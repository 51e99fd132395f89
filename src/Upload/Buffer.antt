-- ===== src/Upload/Buffer.antt =====
-- mountpoint-s3-fs/src/upload/incremental.rs, `UploadBuffer`, with `PoolBufferMut` of memory/buffers.rs below
-- it: a buffer is its capacity and the bytes that are in it. The memory that is reserved for it in the memory
-- limiter is released when it is dropped.
pub mod Sums
pub mod Hashes
pub mod Frozen
mod Tests
use mountpoint_s.Prelude.{
  ℕ, ◌-◌, min, List, [], ◌++◌, Bool, true, false, Option, none, some, ◌⊎◌, inl, inr, length, take,
  drop, ◌==◌, String,
}
use mountpoint_s.Memory.Limiter
use mountpoint_s.Memory.Limiter.{MemoryLimiter}
use mountpoint_s.Upload.Hasher
use mountpoint_s.Upload.Hasher.{ChecksumAlgorithm, ChecksumHasherError, ChecksumHasher, Digests}

pub record UploadBuffer (St : Type 0) : Type 0 where
  pub bytes : List ℕ
  pub capacity : ℕ
  pub hasher : ChecksumHasher St

abbrev pub len : {St : Type 0} → UploadBuffer St → ℕ
len b = length b.bytes

abbrev pub is_full : {St : Type 0} → UploadBuffer St → Bool
is_full b = length b.bytes == b.capacity

-- `ReservedBuffer::drop`
abbrev pub release : {St : Type 0} → UploadBuffer St → MemoryLimiter → MemoryLimiter
release b limiter = Limiter.release limiter b.capacity

-- `append_from_slice`: the buffer with as much of the slice as there is room for. After an error of the
-- hasher the bytes stay there.
abbrev pub appended : {St : Type 0} → UploadBuffer St → List ℕ → UploadBuffer St
appended b slice = record b {
  bytes = b.bytes ++ take (min (b.capacity - length b.bytes) (length slice)) slice;
}

module _ {St : Type 0} (digests : Digests St) where
  -- The memory is reserved only if there is a hasher.
  unfoldable pub new :
      ℕ
      → Option ChecksumAlgorithm
      → MemoryLimiter
      → (ChecksumHasherError ⊎ UploadBuffer St) × MemoryLimiter
  new capacity algorithm limiter = elim (Hasher.new digests algorithm) [
    | inr h ↦ (
      inr (record { bytes = []; capacity = capacity; hasher = h }),
      Limiter.reserve limiter capacity,
    )
    | inl e ↦ (inl e, limiter)
  ]

  -- What `try_new` makes of the answer of `try_reserve`.
  abbrev pub made :
      ℕ
      → Option ChecksumAlgorithm
      → MemoryLimiter × Bool
      → (ChecksumHasherError ⊎ Option (UploadBuffer St)) × MemoryLimiter
  made capacity algorithm (limiter, false) = (inr none, limiter)
  made capacity algorithm (limiter, true) = elim (Hasher.new digests algorithm) [
    | inr h ↦ (inr (some (record { bytes = []; capacity = capacity; hasher = h })), limiter)
    | inl e ↦ (inl e, limiter)
  ]

  unfoldable pub try_new :
      ℕ
      → Option ChecksumAlgorithm
      → MemoryLimiter
      → (ChecksumHasherError ⊎ Option (UploadBuffer St)) × MemoryLimiter
  try_new capacity algorithm limiter =
      made capacity algorithm (Limiter.try_reserve limiter capacity [])

  -- The buffer, and the rest of the slice. The bytes are copied before the hasher may fail.
  unfoldable pub write : UploadBuffer St → List ℕ → ChecksumHasherError ⊎ (UploadBuffer St × List ℕ)
  write b slice =
      let n = min (b.capacity - length b.bytes) (length slice) in
      elim (Hasher.update digests b.hasher (take n slice)) [
        | inr h ↦ inr (record b { bytes = b.bytes ++ take n slice; hasher = h }, drop n slice)
        | inl e ↦ inl e
      ]

  abbrev pub frozen :
      UploadBuffer St
      → ChecksumHasherError ⊎ (Option (ChecksumAlgorithm × String))
      → ChecksumHasherError ⊎ (List ℕ × Option (ChecksumAlgorithm × String))
  frozen b (inl e) = inl e
  frozen b (inr checksum) = inr (b.bytes, checksum)

  -- The bytes, and their checksum.
  unfoldable pub freeze :
      UploadBuffer St → ChecksumHasherError ⊎ (List ℕ × Option (ChecksumAlgorithm × String))
  freeze b = frozen b (Hasher.finalize digests b.hasher)
