-- ===== src/Checksums.antt =====
-- mountpoint-s3-fs/src/checksums.rs: `ChecksummedBytes`, a range of a buffer that carries the
-- checksum of the whole buffer.
--
-- The CRC32C functions are foreign code, and whether validation is switched off is read from the
-- environment: both are parameters, in `Crc`. A `Bytes` is the list of its bytes; a `Range<usize>`
-- is the two fields `start` and `end`.
pub mod Content
pub mod Extend
pub mod Sample
mod Tests
use mountpoint_s.Prelude.{
  ℕ, ◌+◌, ◌-◌, ◌≡◌, List, [], ◌++◌, Bool, true, false, Option, none, some, Outcome, ok, err, panic,
  ◌>>=◌, length, slice, ltb, leb, ◌==◌, if◌then◌else◌, not, u64_max, ◌+w◌,
}

-- `crc32c::checksum`, `crc32c_combine`, and the environment's switch. The laws are the documented
-- meaning of `crc32c_combine`, and the CRC32C of no bytes, which `Default` relies on.
pub record Crc : Type 0 where
  pub disabled : Bool
  pub checksum : List ℕ → ℕ
  pub crc32c_combine : ℕ → ℕ → ℕ → ℕ
  pub combine_law :
      (a b : List ℕ) → crc32c_combine (checksum a) (checksum b) (length b) ≡ checksum (a ++ b)
  pub checksum_empty : checksum [] ≡ 0

pub record ChecksummedBytes : Type 0 where
  pub buffer : List ℕ
  pub start : ℕ
  pub end : ℕ
  pub checksum : ℕ

pub data IntegrityError : Type 0 where
  checksum_mismatch : ℕ → ℕ → IntegrityError

-- A bound of a `RangeBounds<usize>`.
pub data Bound : Type 0 where
  included excluded : ℕ → Bound
  unbounded : Bound

unfoldable pub new_from_inner_data : List ℕ → ℕ → ChecksummedBytes
new_from_inner_data bytes checksum = record {
  buffer = bytes;
  start = 0;
  end = length bytes;
  checksum = checksum;
}

-- `Default::default`: an empty buffer with the checksum 0.
unfoldable pub default : ChecksummedBytes
default = record { buffer = []; start = 0; end = 0; checksum = 0 }

-- `Range::len` and `Range::is_empty`.
abbrev pub len : ChecksummedBytes → ℕ
len c = c.end - c.start

abbrev pub is_empty : ChecksummedBytes → Bool
is_empty c = not (ltb c.start c.end)

-- `Bytes::slice` panics for a range that is not within the buffer.
unfoldable pub buffer_slice : ChecksummedBytes → Outcome IntegrityError (List ℕ)
buffer_slice c =
    if leb c.start c.end
    then (if leb c.end (length c.buffer) then ok (slice c.buffer c.start c.end) else panic)
    else panic

-- The result is `self` after the call, with the part that is split off; `none` is the panic of the
-- assertion.
unfoldable pub split_off : ChecksummedBytes → ℕ → Option (ChecksummedBytes × ChecksummedBytes)
split_off c at =
    if ltb at (len c)
    then some (record c { end = c.start +w at }, record c { start = c.start +w at })
    else none

checked_add : ℕ → ℕ → Outcome IntegrityError ℕ
checked_add a b = if leb (a + b) u64_max then ok (a + b) else panic

unfoldable pub start_offset : Bound → Outcome IntegrityError ℕ
unfolding checked_add
start_offset (included n) = ok n
start_offset (excluded n) = checked_add n 1
start_offset unbounded = ok 0

unfoldable pub end_offset : ChecksummedBytes → Bound → Outcome IntegrityError ℕ
unfolding checked_add
end_offset c (included n) = checked_add n 1
end_offset c (excluded n) = ok n
end_offset c unbounded = ok (len c)

-- The two assertions, and the range moved to the place of `self` in its buffer.
slice_offsets : ChecksummedBytes → ℕ → ℕ → Outcome IntegrityError ChecksummedBytes
slice_offsets c s e =
    if leb s e
    then (if leb e (len c)
        then ok (record c { start = c.start +w s; end = c.start +w e })
        else panic)
    else panic

unfoldable pub slice_range :
    ChecksummedBytes → Bound → Bound → Outcome IntegrityError ChecksummedBytes
unfolding start_offset end_offset checked_add slice_offsets
slice_range c from to = do s ← start_offset from; e ← end_offset c to; slice_offsets c s e

module _ (crc : Crc) where
  unfoldable pub new : List ℕ → ChecksummedBytes
  unfolding new_from_inner_data
  new bytes = new_from_inner_data bytes (if crc.disabled then 0 else crc.checksum bytes)

  unfoldable pub validate : ChecksummedBytes → Outcome IntegrityError (Unit {0})
  validate c =
      if crc.disabled
      then ok tt
      else if c.checksum == crc.checksum c.buffer
      then ok tt
      else err (checksum_mismatch c.checksum (crc.checksum c.buffer))

  unfoldable pub into_bytes : ChecksummedBytes → Outcome IntegrityError (List ℕ)
  unfolding validate buffer_slice
  into_bytes c = do valid ← validate c; buffer_slice c

  unfoldable pub shrink_to_fit : ChecksummedBytes → Outcome IntegrityError ChecksummedBytes
  unfolding validate buffer_slice
  shrink_to_fit c = if len c == length c.buffer then ok c else do
    bytes ← buffer_slice c
    valid ← validate c
    ok (record { buffer = bytes; start = 0; end = len c; checksum = crc.checksum bytes })

  unfoldable pub combine_checksums : ℕ → ℕ → ℕ → ℕ
  combine_checksums prefix_crc suffix_crc suffix_len =
      if crc.disabled then 0 else crc.crc32c_combine prefix_crc suffix_crc suffix_len

  -- `assert_eq!(self.buffer.len(), self.len())`
  unfoldable pub assert_fits : ChecksummedBytes → Outcome IntegrityError (Unit {0})
  assert_fits c = if length c.buffer == len c then ok tt else panic

  unfoldable pub join : ChecksummedBytes → ChecksummedBytes → ChecksummedBytes
  unfolding combine_checksums
  join a b = record {
    buffer = a.buffer ++ b.buffer;
    start = 0;
    end = length (a.buffer ++ b.buffer);
    checksum = combine_checksums a.checksum b.checksum (len b);
  }

  -- The last part of `extend`: both sides are not empty.
  unfoldable pub extend_both :
      ChecksummedBytes → ChecksummedBytes → Outcome IntegrityError ChecksummedBytes
  extend_both c other = do
    a ← shrink_to_fit c
    a_fits ← assert_fits a
    b ← shrink_to_fit other
    b_fits ← assert_fits b
    ok (join a b)

  unfoldable pub extend :
      ChecksummedBytes → ChecksummedBytes → Outcome IntegrityError ChecksummedBytes
  unfolding validate
  extend c other =
      if is_empty other
      then (do valid ← validate other; ok c)
      else if is_empty c
      then (do valid ← validate c; ok other)
      else extend_both c other

  -- The buffer after `shrink_to_fit`, with its checksum.
  unfoldable pub into_inner : ChecksummedBytes → Outcome IntegrityError (List ℕ × ℕ)
  unfolding shrink_to_fit
  into_inner c = do fit ← shrink_to_fit c; ok (fit.buffer, fit.checksum)
