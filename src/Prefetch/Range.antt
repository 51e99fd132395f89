-- ===== src/Prefetch/Range.antt =====
-- mountpoint-s3-fs/src/prefetch/part_stream.rs: `RequestRange`, the bytes of an object that a request is
-- for, and `RequestTaskConfig::initial_read_window_size`.
pub mod Trim
pub mod Align
pub mod Cut
mod Tests
use mountpoint_s.Prelude.{
  ℕ, ◌+◌, ◌-◌, ◌%◌, min, Bool, true, false, ◌||◌, not, Option, none, some, ltb, ◌==◌, if◌then◌else◌,
  ◌+w◌, ◌-w◌,
}

pub record RequestRange : Type 0 where
  pub object_size : ℕ
  pub offset : ℕ
  pub size : ℕ

unfoldable pub new : ℕ → ℕ → ℕ → RequestRange
new object_size offset size = record {
  object_size = object_size;
  offset = offset;
  size = min size (object_size - offset);
}

abbrev pub end_offset : RequestRange → ℕ
end_offset r = r.offset +w r.size

-- `Ord::clamp` panics if the bounds are not in order.
clamp : ℕ → ℕ → ℕ → Option ℕ
clamp x lo hi =
    if ltb hi lo then none else some (if ltb x lo then lo else if ltb hi x then hi else x)

unfoldable pub trim_start : RequestRange → ℕ → Option RequestRange
unfolding clamp
trim_start r start_offset = elim (clamp start_offset r.offset (end_offset r)) [
  | none ↦ none
  | some offset ↦ some (record r { offset = offset; size = end_offset r - offset })
]

unfoldable pub trim_end : RequestRange → ℕ → Option RequestRange
unfolding clamp
trim_end r end_at = elim (clamp end_at r.offset (end_offset r)) [
  | none ↦ none
  | some e ↦ some (record r { size = e - r.offset })
]

-- The size in `align`, when the range begins at offset `offset_in_part` of a part.
aligned_size : RequestRange → ℕ → Bool → ℕ
aligned_size r part_alignment trim_only =
    let offset_in_part = r.offset % part_alignment in
    let remaining_in_part = part_alignment -w offset_in_part in
    let remainder = end_offset r % part_alignment in
    if not (offset_in_part == 0)
    then (if trim_only then min r.size remaining_in_part else remaining_in_part)
    else if ltb r.size part_alignment
    then (if trim_only then r.size else part_alignment)
    else if trim_only || remainder == 0
    then r.size -w remainder
    else r.size +w (part_alignment -w remainder)

-- `none` is the panic of `%` by 0.
unfoldable pub align : RequestRange → ℕ → Bool → Option RequestRange
unfolding aligned_size new
align r part_alignment trim_only =
    if part_alignment == 0
    then none
    else some (new r.object_size r.offset (aligned_size r part_alignment trim_only))

unfoldable pub initial_read_window_size : ℕ → ℕ → ℕ
initial_read_window_size initial_request_size read_part_size =
    if ltb 0 initial_request_size then initial_request_size else read_part_size
