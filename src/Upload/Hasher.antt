-- ===== src/Upload/Hasher.antt =====
-- mountpoint-s3-fs/src/upload/hasher.rs: the running checksum of a buffer. The hashers of the checksum crates
-- are a parameter, `Digests`.
use mountpoint_s.Prelude.{ℕ, List, Option, none, some, ◌⊎◌, inl, inr, String}

pub data ChecksumAlgorithm : Type 0 where
  crc64nvme : ChecksumAlgorithm
  crc32 : ChecksumAlgorithm
  crc32c : ChecksumAlgorithm
  sha1 : ChecksumAlgorithm
  sha256 : ChecksumAlgorithm
  unknown : String → ChecksumAlgorithm

pub data ChecksumHasherError : Type 0 where
  unsupported_checksum_algorithm : ChecksumAlgorithm → ChecksumHasherError
  crt_error : ChecksumHasherError

-- What the crates give for an algorithm: a state, which takes bytes, and a checksum at the end. A failure is
-- that of the CRT.
pub record Digests (St : Type 0) : Type 0 where
  pub start : ChecksumAlgorithm → Option St
  pub take_in : ChecksumAlgorithm → St → List ℕ → Option St
  pub finish : ChecksumAlgorithm → St → Option String

pub data ChecksumHasher (St : Type 0) : Type 0 where
  no_hasher : ChecksumHasher St
  hasher : ChecksumAlgorithm → St → ChecksumHasher St

module _ {St : Type 0} (digests : Digests St) where
  abbrev pub started : ChecksumAlgorithm → Option St → ChecksumHasherError ⊎ (ChecksumHasher St)
  started algorithm none = inl crt_error
  started algorithm (some st) = inr (hasher algorithm st)

  unfoldable pub new : Option ChecksumAlgorithm → ChecksumHasherError ⊎ (ChecksumHasher St)
  new none = inr no_hasher
  new (some (unknown name)) = inl (unsupported_checksum_algorithm (unknown name))
  new (some crc64nvme) = started crc64nvme (digests.start crc64nvme)
  new (some crc32) = started crc32 (digests.start crc32)
  new (some crc32c) = started crc32c (digests.start crc32c)
  new (some sha1) = started sha1 (digests.start sha1)
  new (some sha256) = started sha256 (digests.start sha256)

  unfoldable pub update : ChecksumHasher St → List ℕ → ChecksumHasherError ⊎ (ChecksumHasher St)
  update no_hasher bytes = inr no_hasher
  update (hasher algorithm st) bytes = started algorithm (digests.take_in algorithm st bytes)

  -- The algorithm, and the checksum.
  unfoldable pub finalize :
      ChecksumHasher St → ChecksumHasherError ⊎ (Option (ChecksumAlgorithm × String))
  finalize no_hasher = inr none
  finalize (hasher algorithm st) = elim (digests.finish algorithm st) [
    | none ↦ inl crt_error
    | some checksum ↦ inr (some (algorithm, checksum))
  ]
