-- ===== src/Prefetch/Errors.antt =====
-- mountpoint-s3-fs/src/prefetch.rs: `PrefetchReadError`.
use mountpoint_s.Prelude.{ℕ}
use mountpoint_s.Checksums.{IntegrityError}
use mountpoint_s.Prefetch.Part.{PartOperationError}

-- The client's error and its metadata are the number that `get_request_failed` carries.
pub data ReadError : Type 0 where
  get_request_failed : ℕ → ReadError
  get_request_returned_wrong_offset : ℕ → ℕ → ReadError
  get_request_terminated_unexpectedly : ReadError
  integrity : IntegrityError → ReadError
  part_read_failed : PartOperationError → ReadError
  backpressure_precondition_failed : ReadError
  read_window_increment : ReadError
