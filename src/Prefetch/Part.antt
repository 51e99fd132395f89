-- ===== src/Prefetch/Part.antt =====
-- mountpoint-s3-fs/src/prefetch/part.rs and mountpoint-s3-fs/src/object.rs: a part of an object that
-- knows the object and the offset it comes from.
use mountpoint_s.Prelude.{
  ℕ, String, str_eq, Bool, true, false, ◌&&◌, Option, none, some, Outcome, ok, err, map_err, ◌>>=◌,
  ◌==◌, if◌then◌else◌, ◌+w◌, not,
}
use mountpoint_s.Checksums
use mountpoint_s.Checksums.{Crc, ChecksummedBytes, IntegrityError}

pub record ObjectId : Type 0 where
  pub key : String
  pub etag : String

pub data PartSource : Type 0 where
  cache s3 : PartSource

pub record Part : Type 0 where
  pub id : ObjectId
  pub offset : ℕ
  pub checksummed_bytes : ChecksummedBytes
  pub source : PartSource

pub data PartOperationError : Type 0 where
  integrity : IntegrityError → PartOperationError
  id_mismatch : ObjectId → ObjectId → PartOperationError
  offset_mismatch : ℕ → ℕ → PartOperationError

-- The derived `PartialEq`.
unfoldable pub id_eq : ObjectId → ObjectId → Bool
id_eq a b = str_eq a.key b.key && str_eq a.etag b.etag

abbrev pub len : Part → ℕ
len p = Checksums.len p.checksummed_bytes

unfoldable pub is_from_cache : Part → Bool
is_from_cache p = elim p.source [ cache ↦ true | s3 ↦ false ]

unfoldable pub check : Part → ObjectId → ℕ → Outcome PartOperationError (Unit {0})
check p id offset =
    if not (id_eq p.id id)
    then err (id_mismatch p.id id)
    else if not (p.offset == offset)
    then err (offset_mismatch p.offset offset)
    else ok tt

unfoldable pub into_bytes : Part → ObjectId → ℕ → Outcome PartOperationError ChecksummedBytes
into_bytes p id offset = do checked ← check p id offset; ok p.checksummed_bytes

-- `none` is the panic of `ChecksummedBytes::split_off`.
unfoldable pub split_off : Part → ℕ → Option (Part × Part)
split_off p at = elim (Checksums.split_off p.checksummed_bytes at) [
  | none ↦ none
  | some (kept, new_bytes) ↦ some (
    record p { checksummed_bytes = kept },
    record p { offset = p.offset +w at; checksummed_bytes = new_bytes },
  )
]

-- The part after the call.
unfoldable pub extend : Crc → Part → Part → Outcome PartOperationError Part
extend crc p other = do
  checked ← check other p.id (p.offset +w len p)
  bytes ← map_err integrity (Checksums.extend crc p.checksummed_bytes other.checksummed_bytes)
  ok (record p { checksummed_bytes = bytes })
