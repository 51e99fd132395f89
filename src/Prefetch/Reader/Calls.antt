-- ===== src/Prefetch/Reader/Calls.antt =====
-- mountpoint-s3-fs/src/prefetch.rs: `try_read` and `read`.
use mountpoint_s.Prelude.{
  ℕ, ◌-◌, ◌*◌, min, max, Bool, true, false, Option, none, some, Outcome, ok, err, panic, ◌==◌,
  if◌then◌else◌,
}
use mountpoint_s.Checksums
use mountpoint_s.Checksums.{Crc, ChecksummedBytes}
use mountpoint_s.Prefetch.Errors.{ReadError}
use mountpoint_s.Prefetch.Task.{RequestTask}
use mountpoint_s.Prefetch.Reader.{
  Source, Reader, reset_prefetch_to_offset, spawn_read_backpressure_request, read_loop,
}
use mountpoint_s.Prefetch.Reader.Seek.{try_seek}

-- The reader after the attempt to seek: reset if it did not succeed.
unfoldable pub settle : ℕ → Outcome ReadError Bool × Reader → Outcome ReadError (Unit {0}) × Reader
settle offset (ok true, r) = (ok tt, r)
settle offset (ok false, r) = (ok tt, reset_prefetch_to_offset r offset)
settle offset (err e, r) = (err e, r)
settle offset (panic, r) = (panic, r)

unfoldable pub seek : Reader → ℕ → Outcome ReadError (Unit {0}) × Reader
seek r offset =
    if r.next_sequential_read_offset == offset
    then (ok tt, r)
    else settle offset (try_seek r offset)

module _ (crc : Crc) (source : Source) where
  -- A task is spawned if there is none.
  unfoldable pub ensure_task : Reader → Option RequestTask → Outcome ReadError Reader
  ensure_task r (some t) = ok r
  ensure_task r none = spawn_read_backpressure_request crc source r

  -- `try_read` from the assertion after the seek on.
  unfoldable pub read_settled :
      ℕ
      → ℕ
      → Outcome ReadError (Unit {0}) × Reader
      → Outcome ReadError (ChecksummedBytes × Bool) × Reader
  read_settled offset to_read (err e, r) = (err e, r)
  read_settled offset to_read (panic, r) = (panic, r)
  read_settled offset to_read (ok _, r) =
      if r.next_sequential_read_offset == offset
      then elim (ensure_task r r.task) [
        | err e ↦ (err e, r)
        | panic ↦ (panic, r)
        | ok r' ↦ read_loop crc source to_read r' to_read Checksums.default true
      ]
      else (panic, r)

  unfoldable pub try_read : Reader → ℕ → ℕ → Outcome ReadError (ChecksummedBytes × Bool) × Reader
  try_read r offset length =
      let max_preferred_part_size = 1024 * 1024 in
      let sized = record r {
        preferred_part_size = min (max r.preferred_part_size length) max_preferred_part_size;
      } in
      let remaining = r.size - offset in
      if remaining == 0
      then (ok (Checksums.default, false), sized)
      else read_settled offset (min length remaining) (seek sized offset)

  -- An error resets the reader.
  unfoldable pub finish :
      ℕ
      → Outcome ReadError (ChecksummedBytes × Bool) × Reader
      → Outcome ReadError ChecksummedBytes × Reader
  finish offset (ok (bytes, from_cache), r) = (ok bytes, r)
  finish offset (err e, r) = (err e, reset_prefetch_to_offset r offset)
  finish offset (panic, r) = (panic, r)

  unfoldable pub read : Reader → ℕ → ℕ → Outcome ReadError ChecksummedBytes × Reader
  read r offset length = finish offset (try_read r offset length)
