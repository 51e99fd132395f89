-- ===== src/Prefetch/Range/Cut.antt =====
-- What `trim_start` and `trim_end` give, written out.
use mountpoint_s.Prelude.{ℕ, ◌+◌, ◌-◌, ◌<◌, ◌^◌, min, max, ◌≡◌, some, arith}
use mountpoint_s.Prefetch.Range.{RequestRange, end_offset, clamp, trim_start, trim_end}

-- An offset moved into the range.
abbrev pub mark : RequestRange → ℕ → ℕ
mark r at = max r.offset (min at (r.offset + r.size))

clamp_lem :
    (r : RequestRange) (at : ℕ)
    → r.offset + r.size < 2 ^ 62
    → clamp at r.offset (end_offset r) ≡ some (mark r at)
unfolding clamp
clamp_lem r at h = ground arith

pub trim_start_lem :
    (r : RequestRange) (at : ℕ)
    → r.offset + r.size < 2 ^ 62
    → trim_start r at ≡ some (record r { offset = mark r at; size = r.offset + r.size - mark r at })
unfolding trim_start
trim_start_lem r at h =
    let e : end_offset r ≡ r.offset + r.size = omega arith in rw (clamp_lem r at h, trim_start, e)

pub trim_end_lem :
    (r : RequestRange) (at : ℕ)
    → r.offset + r.size < 2 ^ 62
    → trim_end r at ≡ some (record r { size = mark r at - r.offset })
unfolding trim_end
trim_end_lem r at h = rw (clamp_lem r at h, trim_end)
